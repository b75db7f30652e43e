-- ===== src/Service/Reviews.antt =====
-- diff_review_methods.go. Every method is one call of the store, with the disk.
use vmux.Base.{ℕ, Bool, List, Option, none, some, String}
use vmux.Diff.Hunks.{Hunk}
use vmux.Diff.Store.{Store, Disk, Error, Outcome, list, decide, accept_all, reject_all}
use vmux.Service.Reply.{Reply, returned, invalid_params}

unfoldable pub error_reply : Option Error → Reply Unit
error_reply none = returned tt
error_reply (some e) = invalid_params

-- The store, the disk and the reply.
pub record Reviewed : Type 0 where
  pub store : Store
  pub disk : Disk
  pub reply : Reply Unit

unfoldable pub outcome_reply : Outcome → Reviewed
unfolding error_reply
outcome_reply o = record { store = o.store; disk = o.disk; reply = error_reply o.error }

unfoldable pub refuse : Store → Disk → Reviewed
refuse s d = record { store = s; disk = d; reply = invalid_params }

-- diffDecideParams
pub record DecideParams : Type 0 where
  pub path : String
  pub hunk_id : ℕ
  pub accept : Bool

-- diffReviewList
unfoldable pub diff_review_list : Store → Reply (List (String × List Hunk))
diff_review_list s = returned (list s)

-- diffReviewDecide
unfoldable pub diff_review_decide : Store → Disk → Option DecideParams → Reviewed
unfolding outcome_reply refuse
diff_review_decide s d none = refuse s d
diff_review_decide s d (some p) = outcome_reply (decide s d p.path p.hunk_id p.accept)

-- diffReviewAcceptAll
unfoldable pub diff_review_accept_all : Store → Disk → Option String → Reviewed
unfolding outcome_reply refuse
diff_review_accept_all s d none = refuse s d
diff_review_accept_all s d (some path) = outcome_reply (accept_all s d path)

-- diffReviewRejectAll
unfoldable pub diff_review_reject_all : Store → Disk → Option String → Reviewed
unfolding outcome_reply refuse
diff_review_reject_all s d none = refuse s d
diff_review_reject_all s d (some path) = outcome_reply (reject_all s d path)
