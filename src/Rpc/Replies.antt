-- ===== src/Rpc/Replies.antt =====
-- Which lines are answered, and with which id.
use vmux.Base.{
  ◌≡◌, refl, ap, ◌∙◌, List, [], ◌∷◌, Option, none, some, Map, lookup, map, String, String-eq, Bytes,
}
use vmux.Rpc.Codec.{Request, Response, error_response, result_response}
use vmux.Rpc.Server.{
  Handled, returned, unmarshalled, failed_rpc, failed, Handler, reply_to, handle, answer, dispatch,
}

abbrev pub with_reply : Option Response → List Response → List Response
with_reply none rs = rs
with_reply (some r) rs = r ∷ rs

-- The replies to lines whose handlers end in this order.
abbrev pub replies : (Bytes → Option Request) → Map String Handler → List Bytes → List Response
replies decode handlers [] = []
replies decode handlers (line ∷ ls) =
    with_reply (dispatch decode handlers line) (replies decode handlers ls)

-- The ids to answer for a line: a request's, a null id where the line is none, and nothing for a
-- notification.
abbrev pub asked_by : Option Request → List (Option Bytes) → List (Option Bytes)
asked_by none ids = none ∷ ids
asked_by (some req) ids = elim req.id [ none ↦ ids | some id ↦ some id ∷ ids ]

abbrev pub asked : (Bytes → Option Request) → List Bytes → List (Option Bytes)
asked decode [] = []
asked decode (line ∷ ls) = asked_by (decode line) (asked decode ls)

reply_to-id : (id : Bytes) (h : Handled) → (reply_to id h).id ≡ some id
unfolding reply_to error_response result_response
reply_to-id id (returned raw) = refl
reply_to-id id (unmarshalled reason) = refl
reply_to-id id (failed_rpc e) = refl
reply_to-id id (failed reason) = refl

handle-id :
    (h : Option Handler) (req : Request) (o : Option Bytes) (rs : List Response)
    → map (λ (r : Response). r.id) (with_reply (handle h req o) rs) ≡ elim o [
      | none ↦ map (λ (r : Response). r.id) rs
      | some id ↦ some id ∷ map (λ (r : Response). r.id) rs
    ]
unfolding handle error_response
handle-id none req none rs = refl
handle-id none req (some id) rs = refl
handle-id (some h) req none rs = refl
handle-id (some h) req (some id) rs =
    ap (λ i. i ∷ map (λ (r : Response). r.id) rs) (reply_to-id id (h req.params))

answer-id :
    (handlers : Map String Handler) (o : Option Request) (rs : List Response)
    → map (λ (r : Response). r.id) (with_reply (answer handlers o) rs)
      ≡ asked_by o (map (λ (r : Response). r.id) rs)
unfolding answer error_response
answer-id handlers none rs = refl
answer-id handlers (some req) rs = handle-id (lookup req.method handlers) req req.id rs

-- Whatever the handlers do, each request with an id is answered exactly once and under its id,
-- each line that is no request once with a null id, and no notification is answered.
pub replies-asked :
    (decode : Bytes → Option Request) (handlers : Map String Handler) (ls : List Bytes)
    → map (λ (r : Response). r.id) (replies decode handlers ls) ≡ asked decode ls
unfolding dispatch
replies-asked decode handlers [] = refl
replies-asked decode handlers (line ∷ ls) =
    answer-id handlers (decode line) (replies decode handlers ls)
    ∙ ap (asked_by (decode line)) (replies-asked decode handlers ls)
