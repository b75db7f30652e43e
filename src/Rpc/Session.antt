-- ===== src/Rpc/Session.antt =====
-- A client's requests, from their frames to the ids of their replies.
use mathlib.Core.Option
use vmux.Base.{List, [], ◌∷◌, Option, some, Bytes}
use vmux.Rpc.Codec.{Request}
use vmux.Rpc.Replies.{asked_by}

-- The ids of the requests that are no notifications.
abbrev pub ids_of : List Request → List (Option Bytes)
ids_of [] = []
ids_of (req ∷ reqs) = asked_by (some req) (ids_of reqs)
