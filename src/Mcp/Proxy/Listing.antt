-- ===== src/Mcp/Proxy/Listing.antt =====
-- The tools that are listed are those that can be called.
use vmux.Base.{
  ◌≡◌, refl, ap, ◌∙◌, Bool, true, false, ◌||◌, List, [], ◌∷◌, ◌++◌, Option, none, some,
  if◌then◌else◌, Map, lookup, insert, lookup-insert, String, String-eq, ◌==◌, Bool-cases, inl, inr,
  arith,
}
use vmux.Mcp.Tool.{Tool, ToolHandler}
use vmux.Mcp.Proxy.{
  Upstream, Proxy, add_native, new_proxy, add_upstream, add_upstreams, upstream_tools, all_tools,
  has_tool, owner_of, bare_proxy,
}

abbrev pub is_some : {A : Type 0} → Option A → Bool
is_some none = false
is_some (some a) = true

-- A native tool is listed where it has a handler.
abbrev pub Matches : Proxy → Type 0
Matches p = (name : String) → has_tool name p.native_tools ≡ is_some (lookup name p.native_by_name)

has_tool-append :
    (name : String) (ts us : List Tool)
    → has_tool name (ts ++ us) ≡ (has_tool name ts || has_tool name us)
unfolding has_tool
has_tool-append name [] us = refl
has_tool-append name (t ∷ ts) us = ground (arith, has_tool-append name ts us)

or_true : (a : Bool) → (a || true) ≡ true
or_true true = refl
or_true false = refl

or_false : (a : Bool) → (a || false) ≡ a
or_false true = refl
or_false false = refl

has_tool-one : (name : String) (t : Tool) → has_tool name (t ∷ []) ≡ (t.name == name)
unfolding has_tool
has_tool-one name t = or_false (t.name == name)

is_some-first :
    {A : Type 0} (b : Bool) (a : A) (o : Option A)
    → (b || is_some o) ≡ is_some (if b then some a else o)
is_some-first true a o = refl
is_some-first false a o = refl

add_native-Matches :
    (p : Proxy) (rts : List (Tool × ToolHandler)) → Matches p → Matches (add_native p rts)
unfolding add_native has_tool
add_native-Matches p [] h = h
add_native-Matches p (rt ∷ rts) h =
    add_native-Matches
      (record p {
        native_by_name = insert rt.0.name rt.1 p.native_by_name;
        native_tools = p.native_tools ++ rt.0 ∷ [];
      })
      rts
      (λ name. elim (Bool-cases (rt.0.name == name)) [
        | inl e ↦
            rw (lookup-insert rt.0.name name rt.1 p.native_by_name, e)
              (has_tool-append name p.native_tools (rt.0 ∷ [])
                ∙ ap (λ b. has_tool name p.native_tools || b) (has_tool-one name rt.0 ∙ e)
                ∙ or_true (has_tool name p.native_tools))
        | inr e ↦
            rw (lookup-insert rt.0.name name rt.1 p.native_by_name, e)
              (has_tool-append name p.native_tools (rt.0 ∷ [])
                ∙ ap (λ b. has_tool name p.native_tools || b) (has_tool-one name rt.0 ∙ e)
                ∙ or_false (has_tool name p.native_tools)
                ∙ h name)
      ])

add_upstreams-Matches : (p : Proxy) (us : List Upstream) → Matches p → Matches (add_upstreams p us)
unfolding add_upstreams add_upstream
add_upstreams-Matches p [] h = h
add_upstreams-Matches p (u ∷ us) h = add_upstreams-Matches (add_upstream p u) us h

has_tool-upstream_tools :
    (name : String) (us : Map String Upstream)
    → has_tool name (upstream_tools us) ≡ is_some (owner_of name us)
unfolding upstream_tools owner_of has_tool
has_tool-upstream_tools name [] = refl
has_tool-upstream_tools name (u ∷ us) =
    has_tool-append name u.1.tools (upstream_tools us)
    ∙ ap (λ b. has_tool name u.1.tools || b) (has_tool-upstream_tools name us)
    ∙ is_some-first (has_tool name u.1.tools) u.1 (owner_of name us)

-- The proxy as the service makes it.
abbrev pub serving : List (Tool × ToolHandler) → List Upstream → Proxy
serving rts us = add_upstreams (new_proxy rts) us

bare_proxy-Matches : Matches bare_proxy
unfolding has_tool lookup
bare_proxy-Matches name = refl

-- A tool is listed where it has a native handler or an owner among the upstreams.
pub all_tools-known :
    (rts : List (Tool × ToolHandler)) (us : List Upstream) (name : String)
    → has_tool name (all_tools (serving rts us)) ≡ (
        is_some (lookup name (serving rts us).native_by_name)
        || is_some (owner_of name (serving rts us).upstreams))
unfolding all_tools new_proxy
all_tools-known rts us name =
    let p : Proxy = serving rts us in
    let h : Matches p =
      add_upstreams-Matches (new_proxy rts) us
        (add_native-Matches bare_proxy rts bare_proxy-Matches) in
    has_tool-append name p.native_tools (upstream_tools p.upstreams)
    ∙ ap (λ b. b || has_tool name (upstream_tools p.upstreams)) (h name)
    ∙ ap (λ b. is_some (lookup name p.native_by_name) || b)
        (has_tool-upstream_tools name p.upstreams)
