-- ===== src/Service/Sessions.antt =====
-- server.go: the methods of the sessions and the workspaces.
use vmux.Base.{Bool, true, false, List, Option, none, some, String, Bytes}
use vmux.Pty.Manager.{Manager}
use vmux.Pty.Live.{Live, Called, done, no_session, broken, use_session, kill, list, spawn}
use vmux.Workspace.Meta.{Codec, Env}
use vmux.Workspace.Registry.{
  Registry, Workspace, Opened, opened, failed as failed_open, open_path, close,
}
use vmux.Workspace.Registry as Workspaces
use vmux.Service.Reply.{Reply, returned, invalid_params, failed}

unfoldable pub called_reply : Called → Reply Unit
called_reply done = returned tt
called_reply no_session = failed
called_reply broken = failed

unfoldable pub write_decoded : Manager → String → Option Bytes → Bool → Reply Unit
unfolding called_reply use_session
write_decoded m sid none ok = invalid_params
write_decoded m sid (some data_written) ok = called_reply (use_session m sid ok)

-- ptyWrite, on a session and its data, `none` where base64 cannot decode them; `ok` is whether the
-- pseudo-terminal takes them
unfoldable pub pty_write : Manager → Option (String × Option Bytes) → Bool → Reply Unit
unfolding write_decoded
pty_write m none ok = invalid_params
pty_write m (some (sid, decoded)) ok = write_decoded m sid decoded ok

-- ptyResize, on a session; the columns and rows go to the pseudo-terminal
unfoldable pub pty_resize : Manager → Option String → Bool → Reply Unit
unfolding called_reply use_session
pty_resize m none ok = invalid_params
pty_resize m (some sid) ok = called_reply (use_session m sid ok)

-- ptyKill
unfoldable pub pty_kill : Live → Option String → Live × Reply Unit
unfolding called_reply kill
pty_kill l none = (l, invalid_params)
pty_kill l (some sid) = let (l', c) = kill l sid in (l', called_reply c)

-- ptyList
unfoldable pub pty_list : Manager → Reply (List String)
pty_list m = returned (list m)

unfoldable pub opened_reply : Opened → Reply (Option Workspace)
opened_reply failed_open = failed
opened_reply (opened w) = returned w

-- workspaceOpen
unfoldable pub workspace_open :
    Codec → Env → Registry → Option String → String → Registry × Reply (Option Workspace)
unfolding opened_reply
workspace_open codec env r none fresh = (r, invalid_params)
workspace_open codec env r (some path) fresh =
    let (r', o) = open_path codec env r path fresh in (r', opened_reply o)

-- workspaceList
unfoldable pub workspace_list : Registry → Reply (List Workspace)
workspace_list r = returned (Workspaces.list r)

unfoldable pub closed_reply : Bool → Reply Unit
closed_reply true = returned tt
closed_reply false = failed

-- workspaceClose
unfoldable pub workspace_close : Env → Registry → Option String → Registry × Reply Unit
unfolding closed_reply
workspace_close env r none = (r, invalid_params)
workspace_close env r (some id) = let (r', had) = close env r id in (r', closed_reply had)

unfoldable pub spawned_reply : Option String → Reply String
spawned_reply none = failed
spawned_reply (some sid) = returned sid

-- ptySpawn, on a command
unfoldable pub pty_spawn : Live → Option String → Option String → Live × Reply String
unfolding spawned_reply spawn
pty_spawn l none started = (l, invalid_params)
pty_spawn l (some cmd) started = let (l', sid) = spawn l cmd started in (l', spawned_reply sid)
