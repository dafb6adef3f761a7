-- ===== src/Realtime/Delivery.antt =====
-- The methods of `ConnectionManager` in backend/app/features/realtime/manager.py that go over the
-- sockets of an index. Each goes over a snapshot, a tuple of the set.
use lc_connect.Base.{
  ℕ, ◌+◌, Bool, false, Option, none, some, List, [], ◌∷◌, ◌++◌, ◌==◌, ltb, if◌then◌else◌, set_at,
}
use lc_connect.Realtime.Manager.{Manager, Frame, enqueue, unregister, unsubscribe}

-- `sum(1 for conn in ... if conn.enqueue(frame))`
unfoldable pub deliver_all : Frame → List ℕ → Manager → ℕ × Manager
deliver_all f [] m = (0, m)
deliver_all f (c ∷ cs) m =
    let sent = enqueue c f m in
    let rest = deliver_all f cs sent.1 in (if sent.0 then rest.0 + 1 else rest.0, rest.1)

unfoldable pub deliver_to_user : ℕ → Frame → Manager → ℕ × Manager
deliver_to_user user f m = deliver_all f (set_at user m.by_user) m

-- The sockets of all sets of an index.
unfoldable pub sockets : List (ℕ × List ℕ) → List ℕ
sockets [] = []
sockets ((u, cs) ∷ idx) = cs ++ sockets idx

unfoldable pub broadcast : Frame → Manager → ℕ × Manager
broadcast f m = deliver_all f (sockets m.by_user) m

abbrev pub is_excluded : Option ℕ → ℕ → Bool
is_excluded none user = false
is_excluded (some excluded) user = user == excluded

-- The loop of `deliver_to_conversation`: the number reached, and the dead.
unfoldable pub fan_out : Option ℕ → Frame → List ℕ → Manager → ℕ × List ℕ × Manager
fan_out exclude f [] m = (0, [], m)
fan_out exclude f (c ∷ cs) m =
    let skipped = fan_out exclude f cs m in
    let sent = enqueue c f m in
    let rest = fan_out exclude f cs sent.1 in
    if is_excluded exclude (m.object c).user_id
    then skipped
    else if sent.0
    then (rest.0 + 1, rest.1, rest.2)
    else (rest.0, c ∷ rest.1, rest.2)

unfoldable pub unregister_all : ℕ → List ℕ → Manager → Manager
unregister_all code [] m = m
unregister_all code (c ∷ cs) m = unregister_all code cs (unregister code c m)

-- The normal close code.
unfoldable pub deliver_to_conversation : ℕ → Frame → Option ℕ → Manager → ℕ × Manager
deliver_to_conversation v f exclude m =
    let sent = fan_out exclude f (set_at v m.by_conversation) m in
    (sent.0, unregister_all 1_000 sent.1 sent.2)

unfoldable pub revoke_all : ℕ → Frame → List ℕ → Manager → Manager
revoke_all v f [] m = m
revoke_all v f (c ∷ cs) m = revoke_all v f cs (unsubscribe c v (enqueue c f m).1)

unfoldable pub revoke_conversation : ℕ → Frame → Manager → Manager
revoke_conversation v f m = revoke_all v f (set_at v m.by_conversation) m

unfoldable pub revoke_user : ℕ → ℕ → Frame → List ℕ → Manager → Manager
revoke_user v user f [] m = m
revoke_user v user f (c ∷ cs) m =
    let revoked = revoke_user v user f cs (unsubscribe c v (enqueue c f m).1) in
    let kept = revoke_user v user f cs m in if (m.object c).user_id == user then revoked else kept

unfoldable pub revoke_member : ℕ → ℕ → Frame → Manager → Manager
revoke_member v user f m = revoke_user v user f (set_at v m.by_conversation) m

unfoldable pub revoke_pair : List ℕ → Frame → Manager → Manager
revoke_pair [] f m = m
revoke_pair (v ∷ vs) f m = revoke_pair vs f (revoke_conversation v f m)

unfoldable pub close_all : Frame → ℕ → List ℕ → Manager → Manager
close_all f code [] m = m
close_all f code (c ∷ cs) m = close_all f code cs (unregister code c (enqueue c f m).1)

unfoldable pub close_user : ℕ → Frame → ℕ → Manager → Manager
close_user user f code m = close_all f code (set_at user m.by_user) m

-- `last_seen < now - idle_seconds`
unfoldable pub idle_since : ℕ → ℕ → List ℕ → Manager → List ℕ
idle_since now idle [] m = []
idle_since now idle (c ∷ cs) m =
    let rest = idle_since now idle cs m in
    if ltb ((m.object c).last_seen + idle) now then c ∷ rest else rest

-- The notice goes straight to the socket.
unfoldable pub reap_idle : ℕ → ℕ → ℕ → Manager → Manager
reap_idle now idle code m = unregister_all code (idle_since now idle (sockets m.by_user) m) m

unfoldable pub shutdown : ℕ → Manager → Manager
shutdown code m = unregister_all code (sockets m.by_user) m
