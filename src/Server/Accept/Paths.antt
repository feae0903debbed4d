-- ===== src/Server/Accept/Paths.antt =====
-- Which connections become a session.
use echo_proxy_core.Base.{not, Bytes, codes, if◌then◌else◌}
use echo_proxy_core.Text.{ends_with}
use echo_proxy_core.Server.Accept.{Answer, hang_up, run_control, run_mux, accepts_path}

-- The answer to a WebSocket request for `path`.
abbrev on_path : Bytes → Answer
on_path path =
    if not (accepts_path path)
    then hang_up
    else if ends_with (codes "control") path
    then run_control
    else run_mux
