-- ===== src/Mcp/Peer/Steps.antt =====
-- peer.go: the interleavings of calls, the reading loop, handlers and Close as lists of steps.
use vmux.Base.{ℕ, Bool, List, [], ◌∷◌, Option, String, Bytes}
use vmux.Mcp.Peer.{
  Peer, Codec, ReadEnd, draw, register, write, take_reply, give_up, read_line, close, notify,
}
use vmux.Mcp.Peer.Serve.{Handled, serve}

pub data Step : Type 0 where
  -- a Call marshals its parameters and draws its id
  draws : String → Option Bytes → Step
  registers : ℕ → Step
  -- its request is written, or cannot be
  writes : ℕ → Bool → Step
  takes gives_up : ℕ → Step
  -- the loop of Run reads a line
  reads : Bytes → ReadEnd → Step
  serves : ℕ → Handled → Bool → Step
  notifies : String → Option Bytes → Bool → Step
  closes : Step

unfoldable pub step : Codec → Peer → Step → Peer
unfolding draw register write take_reply give_up read_line close serve notify
step codec p (draws method params) = draw p method params
step codec p (registers id) = register p id
step codec p (writes id ok) = write codec p id ok
step codec p (takes id) = take_reply p id
step codec p (gives_up id) = give_up p id
step codec p (reads line end) = read_line codec p line end
step codec p (serves n h ok) = serve p n h ok
step codec p (notifies method params ok) = notify p method params ok
step codec p closes = close p

unfoldable pub run : Codec → Peer → List Step → Peer
unfolding step
run codec p [] = p
run codec p (a ∷ steps) = run codec (step codec p a) steps
