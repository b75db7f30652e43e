-- ===== src/Approval/Queue.antt =====
-- queue.go, with the Action of modes.go: the actions that await a human decision.
use vmux.Base.{
  ℕ, ◌+◌, Bool, true, false, List, [], none, some, String, Bytes, Map, String-eq, lookup, insert,
  delete, map,
}
use vmux.Approval.Rules.{Rule}

pub record Action : Type 0 where
  pub tool : String
  pub command : Bytes
  pub args : List Bytes
  pub workspace : String

pub record PendingItem : Type 0 where
  pub id : String
  pub action : Action
  pub rule : Rule

pub record PendingView : Type 0 where
  pub id : String
  pub tool : String
  pub command : Bytes
  pub args : List Bytes
  pub workspace : String
  pub rule_id : String
  pub reason : String

-- The pending items, what stands in the decision channel of each item that was ever added (they
-- hold one value), and how often onChange has been called.
pub record Queue : Type 0 where
  pub items : Map String PendingItem
  pub channels : Map String Bool
  pub notices : ℕ

abbrev pub empty : Queue
empty = record { items = []; channels = []; notices = 0 }

-- `id` is what id.New returned for the item.
unfoldable pub add : Queue → String → Action → Rule → Queue
add q id a r = record q {
  items = insert id (record { id = id; action = a; rule = r }) q.items;
  notices = q.notices + 1;
}

unfoldable pub decide : Queue → String → Bool → Queue × Bool
decide q id allow = elim (lookup id q.items) [
  | none ↦ (record q { items = delete id q.items }, false)
  | some item ↦ (
    record q {
      items = delete id q.items;
      channels = insert item.id allow q.channels;
      notices = q.notices + 1;
    },
    true,
  )
]

unfoldable pub remove : Queue → String → Queue
remove q id = record q { items = delete id q.items; notices = q.notices + 1 }

unfoldable pub list : Queue → List PendingView
list q =
    map
      (λ entry. record {
        id = entry.1.id;
        tool = entry.1.action.tool;
        command = entry.1.action.command;
        args = entry.1.action.args;
        workspace = entry.1.action.workspace;
        rule_id = entry.1.rule.id;
        reason = entry.1.rule.reason;
      })
      q.items
