-- ===== src/Handler/Socket.antt =====
-- internal/adapter/handler/ws_handler.go: a connection of a dashboard. The library gorilla/websocket
-- upgrades the request, or fails.
use hivepulse.Prelude.{ℕ, ◌≡◌, Bool, true, false, any, if◌then◌else◌}
use hivepulse.Infra.Hub.{Hub, Step, Reachable, goes_on, registers, has_id, register, unregister}

-- `WSHandler.Connect`: the new client is registered, and its two pumps are started.
unfoldable pub connect : Bool → ℕ → Hub → Hub
unfolding register
connect upgraded id h = if upgraded then register id h else h

-- `ReadPump`: the error of a read ends it, and it unregisters the client.
unfoldable pub read_pump : Bool → ℕ → Hub → Hub
unfolding unregister
read_pump failed id h = if failed then unregister id h else h

-- From a reachable hub, each of the two leads to a reachable one.
pub connect-Reachable :
    (upgraded : Bool) (id : ℕ) (h : Hub)
    → any (has_id id) h.clients ≡ false
    → Reachable h
    → Reachable (connect upgraded id h)
unfolding connect
connect-Reachable true id h new r = goes_on h (register id h) r (registers id h new)
connect-Reachable false id h new r = r

pub read_pump-Reachable :
    (failed : Bool) (id : ℕ) (h : Hub) → Reachable h → Reachable (read_pump failed id h)
unfolding read_pump
read_pump-Reachable true id h r = goes_on h (unregister id h) r (Step.unregisters id h)
read_pump-Reachable false id h r = r
