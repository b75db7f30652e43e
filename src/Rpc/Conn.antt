-- ===== src/Rpc/Conn.antt =====
-- conn.go and the connections of server.go: the queue of a connection and the loop that writes it, as
-- steps that may come in any order.
use vmux.Base.{
  ℕ, Bool, true, false, List, [], ◌∷◌, ◌++◌, if◌then◌else◌, ltb, Map, insert, delete, ℕ-eq, Bytes,
  length, take,
}

-- sendBuffer
abbrev pub send_buffer : ℕ
send_buffer = 256

-- `writing` is whether writeLoop runs, and `output` what has been written to the socket.
pub record Conn : Type 0 where
  pub queue : List Bytes
  pub done : Bool
  pub writing : Bool
  pub output : Bytes

-- newConn, with its writeLoop started.
abbrev pub new_conn : Conn
new_conn = record { queue = []; done = false; writing = true; output = [] }

pub data Step : Type 0 where
  -- send puts its line on the queue, or is over since the connection is closing
  queues drops : Bytes → Step
  -- writeLoop writes the first line, or is broken off after a number of bytes
  writes : Step
  breaks : ℕ → Step
  -- writeLoop ends since the connection is closing
  ends : Step
  closes : Step

-- The case of send that needs room in the queue; where there is none, send waits.
unfoldable pub queue_line : Conn → Bytes → Conn
queue_line c line =
    if ltb (length c.queue) send_buffer then record c { queue = c.queue ++ line ∷ [] } else c

abbrev pub frame : Bytes → Bytes
frame line = line ++ b'\n' ∷ []

unfoldable pub write_first : Conn → List Bytes → Conn
write_first c [] = c
write_first c (line ∷ rest) = record c { queue = rest; output = c.output ++ frame line }

unfoldable pub break_first : ℕ → Conn → List Bytes → Conn
break_first n c [] = c
break_first n c (line ∷ rest) = record c {
  queue = rest;
  done = true;
  writing = false;
  output = c.output ++ take n (frame line);
}

-- writeLoop has ended where the connection is closing.
unfoldable pub end_loop : Conn → Conn
end_loop c = if c.done then record c { writing = false } else c

unfoldable pub step_by : Conn → Bool → Step → Conn
unfolding queue_line write_first break_first end_loop
step_by c b (queues line) = queue_line c line
step_by c b (drops line) = c
step_by c true writes = write_first c c.queue
step_by c false writes = c
step_by c true (breaks n) = break_first n c c.queue
step_by c false (breaks n) = c
step_by c b ends = end_loop c
step_by c b closes = record c { done = true }

unfoldable pub step : Conn → Step → Conn
unfolding step_by
step c a = step_by c c.writing a

unfoldable pub run : Conn → List Step → Conn
unfolding step
run c [] = c
run c (a ∷ steps) = run (step c a) steps

-- The connections of the server, by a number for each: addConn and removeConn.
unfoldable pub add_conn : ℕ → Conn → Map ℕ Conn → Map ℕ Conn
add_conn id c conns = insert id c conns

unfoldable pub remove_conn : ℕ → Map ℕ Conn → Map ℕ Conn
remove_conn id conns = delete id conns

-- Notify, where no connection's queue is full: the line goes to each.
unfoldable pub notify : Bytes → Map ℕ Conn → Map ℕ Conn
unfolding queue_line
notify line [] = []
notify line (e ∷ conns) = (e.0, queue_line e.1 line) ∷ notify line conns
