-- ===== src/Lib.antt =====
-- vmux: the sidecar that a terminal multiplexer for coding agents runs beside its window. Agents
-- call tools over MCP; the sidecar resolves their paths, asks an approval gate about their
-- commands, stages their file writes for a review hunk by hunk, and keeps the state the window
-- shows.
--
-- Base and its modules hold what the parts share: native numbers, Boolean tests, the class Equality
-- of a decidable equality, lists with native lengths, and maps as association lists (Base/Dict). A
-- Go map is such a list with one entry to a key; where Go iterates over a map in no fixed order the
-- model takes the order of the entries. Texts whose bytes matter
-- (file contents, command lines) are lists of numbers; names and ids are strings.
--
-- Diff is sidecar/internal/diffreview. Diff/Lines, Diff/Lcs and Diff/Hunks are hunk.go:
-- splitLines, commonPrefix, commonSuffix, lcsTable, diffMiddle, ComputeHunks and ApplyHunks, as
-- split_lines, common_prefix, common_suffix, lcs_table, diff_middle, compute_hunks and
-- apply_hunks. The table of lcsTable is a list of rows, built from the last line upwards as in the
-- source. Diff/Store is pending.go: a Store with its pending reviews and the number of its
-- notifications, stage for Stage, decide_many for decideMany, and a disk of files with their
-- permission bits that os.WriteFile may refuse. Every method holds the mutex throughout, so it is
-- one step. Diff/Resolve, Diff/Review, Diff/Optimal, Diff/Patch, Diff/Bulk, Diff/Decisions and
-- Diff/Guards are the proofs.
--
-- Approval is sidecar/internal/approval. Approval/Regex is a matcher for the regular expressions
-- of rules.go, by structural recursion on the expression with the text's length as the bound of a
-- repetition, which is enough because an iteration that reads nothing is not repeated.
-- Approval/Rules is rules.go, Approval/Queue queue.go, Approval/Gate gate.go and modes.go.
-- Gate.Check is split at its select: check_start runs up to it, receive and cancel are its two
-- cases, and a list of events (run) is an interleaving of calls, decisions, cancellations and mode
-- changes. Approval/Keys, Approval/Safety and Approval/Verdicts are the proofs. The id of an item,
-- which id.New draws at random, is an argument.
--
-- Mcp is the native tools of sidecar/internal/mcp. Mcp/Paths is resolveWorkspacePath,
-- resolveExisting and withinRoot of native_tools.go, over clean absolute paths, with
-- filepath.EvalSymlinks as a parameter. Mcp/Files is native_file.go and uses the gate and the
-- review store; Mcp/Commands is native_command.go up to the start of the program. The decoding of
-- JSON is left out: a request comes decoded, or as none. Mcp/Writes holds proofs. The files named
-- Tests hold runs from the source's tests and the theorems at concrete inputs.
--
-- Activity is sidecar/internal/activity, store.go and event.go. Activity/Log is the log files
-- and All, Activity/Store the rest. Append works under the mutex up to its copy of the
-- subscribers (append) and sends to their channels afterwards; the sends that are left are part
-- of the state, so a list of steps is an interleaving of Append, Subscribe, unsubscriptions,
-- single sends, reads and Close. A new store finds the log files of earlier runs, which are
-- lists of whole lines. Redact and the JSON encoding of an event are arguments. Activity/Ring,
-- Activity/History, Activity/Recent, Activity/Persist, Activity/Full and Activity/Channels are
-- the proofs. A state that has panicked is one that the program never leaves; what the later
-- steps make of it means nothing.
--
-- Replay is sidecar/internal/replay/replay.go: At in Replay/Snapshot, with its proofs in
-- Replay/Window, and Timeline in Replay/Timeline, with its proofs in Replay/Buckets,
-- Replay/Moments and Replay/Density. A time is a natural number of nanoseconds, a Duration an
-- int64 whose wrap-around is written out in both (Base/Integers), and both work on the list of
-- events that their source has.
--
-- Pty is sidecar/internal/pty. Pty/Env is env.go, buildEnv as build_env. Pty/Manager is the map
-- of sessions in manager.go, with which readers of session.go still run: Spawn is two steps, the
-- start of the session and its entry in the map, so the end of a reader can come between. The
-- proofs about it stand in Pty/Sessions. Pty/Live adds Write, Resize, Kill, KillAll and List,
-- with the kill of session.go and its Once, where KillAll's taking of the sessions from the map
-- and each of its kills are steps of their own; Pty/Reader is readPump over what it reads.
-- Pty/Signals has the proofs about Kill.
--
-- Workspace is sidecar/internal/workspace. Workspace/Git is the parser of git.go, Workspace/Meta
-- meta.go, Workspace/Registry registry.go: open_path for Open, close, get, list, on_git_change,
-- new_registry for load, persist for persistLocked. What an operation finds outside
-- (directories, metadata files that cannot be read, git, watchers) is an environment, an
-- argument of each step. Workspace/Header, Workspace/Porcelain, Workspace/Inverse,
-- Workspace/Steps, Workspace/Runs, Workspace/Restart and Workspace/Reload are the proofs.
--
-- Mcp/Peer is peer.go with the messages of protocol.go (Mcp/Message). A Call is split where other
-- goroutines can come between: draw, register, write, take_reply or give_up; read_line is a turn
-- of Run's loop and serve a request's handler. Ids are counted modulo 2^64. Mcp/Peer/Steps is the
-- interleavings; Mcp/Peer/Coherent, Kept, Answers, Ends and Stopped are the proofs. Mcp/Proxy is
-- proxy.go and proxy_route.go over the tools and results of Mcp/Tool (tool.go), Mcp/Proxy/Session
-- the methods of a connection, Mcp/Proxy/Listing and Mcp/Proxy/Logged the proofs.
--
-- Rpc is sidecar/internal/rpc: Rpc/Codec the replies of codec.go, Rpc/Server register and
-- dispatch, Rpc/Reader readLine and the loop of handleConn over the bytes of a connection. That
-- loop runs on fuel, and is none where the fuel ends first; Rpc/Fuel shows that it returns with
-- more fuel than bytes. A handler that panics is not modelled there. Rpc/Conn is conn.go: send,
-- writeLoop and close as steps that interleave. Rpc/Frames, Rpc/Replies, Rpc/Session and
-- Rpc/Delivery are the proofs.
--
-- BrowserSession is sidecar/internal/browsersession: Screenshots is screenshot_store.go, with a
-- file under the key of its directory and the name of its shot, Ports is port_detector.go over
-- the matches of its regular expression, and Browsers is manager.go. Shots, Clearing, Reports
-- and Instances are the proofs. ChromeImport is sidecar/internal/chromeimport: Cookies is
-- cookies.go over a cipher that is an argument, Bookmarks is bookmarks.go and Profiles
-- profiles.go; Padding and Merge are the proofs.
--
-- Editor is sidecar/internal/editorintegration and sidecar/internal/editor_methods.go.
-- Editor/Args is BuildArgs of invoke.go with strings.Fields, the replacer and strconv.Itoa,
-- which runs on the 19 digits of an int of 64 bits; Editor/Prefs is prefs.go, Editor/Detect
-- detect.go, Find of registry.go and pickEditor, Editor/Contain containWorkspacePath,
-- Editor/Invoke the methods. Templates, Kept and a part of Contain and Invoke are the proofs.
--
-- Cli is sidecar/cmd/vmux-cli. Cli/Client is client.go: call is split into begin_call,
-- write_call and take_reply, which interleave with the turns of readLoop (read_line and
-- end_reading). Cli/Attach is the onNotify of attach.go, Cli/Command main.go. Coherent, Answers
-- and Heard are the proofs.
--
-- Service is sidecar/internal/server.go with the *_methods.go beside it: each method on its decoded
-- parameters and on the states of the components that it calls, with a Reply of the error code that
-- the client gets. Logs is activityBridge, activity.recent and the tool of native_activity.go,
-- Approvals activity_methods.go, Reviews diff_review_methods.go, Browser browser_methods.go with
-- OnScreenshot and the output tap, Imports chrome_import_methods.go, Sessions the methods of
-- sessions and workspaces, Methods registerMethods. Logged, Answered and Latest are the proofs.
--
-- Not modelled are the key derivation of cookies, the start of upstream servers, the installer
-- and configuration, redact.go, and the other commands. Time, randomness, processes, sockets,
-- the git and Chrome programs and the Swift application are outside the source or only call it.
pub mod Activity
pub mod Approval
pub mod Base
pub mod BrowserSession
pub mod ChromeImport
pub mod Cli
pub mod Diff
pub mod Editor
pub mod Mcp
pub mod Pty
pub mod Replay
pub mod Rpc
pub mod Service
pub mod Workspace
