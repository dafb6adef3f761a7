-- ===== src/Realtime/Manager.antt =====
-- `Connection` and `ConnectionManager` of backend/app/features/realtime/manager.py. A `Connection`
-- is an object that two indices share, so the model has a heap: an address for each object. Times
-- are those of the monotonic clock, and the sets are lists without repetitions.
use lc_connect.Base.{
  length, ℕ, ◌+◌, Bool, true, false, not, ◌&&◌, Option, none, some, List, [], ◌∷◌, ◌++◌, ◌==◌, leb,
  if◌then◌else◌, get, put, delete, add, discard, set_at, index_add, index_remove,
}

-- The error frames that revocations send, told apart by their messages.
pub data ErrorMessage : Type 0 where
  account_suspended access_revoked removed_from_conversation idle_timeout : ErrorMessage

pub data Frame : Type 0 where
  error : ErrorMessage → Frame
  announcement opportunity event : ℕ → Frame
  shutdown_mark : Frame

pub record Connection : Type 0 where
  pub user_id : ℕ
  pub subscriptions : List ℕ
  pub partners : List (ℕ × List ℕ)
  pub partners_at : List (ℕ × ℕ)
  pub refs : List (ℕ × ℕ)
  pub addressing : List (ℕ × ℕ)
  pub last_seen : ℕ
  pub alive : Bool
  -- Whether the writer's task runs.
  pub writing : Bool
  pub outbox : List Frame
  pub closed : Option ℕ

-- The objects below `next` exist.
pub record Manager : Type 0 where
  pub outbox_max : ℕ
  pub next : ℕ
  pub object : ℕ → Connection
  pub by_user : List (ℕ × List ℕ)
  pub by_conversation : List (ℕ × List ℕ)

abbrev pub connection : ℕ → ℕ → Connection
connection user now = record {
  user_id = user;
  subscriptions = [];
  partners = [];
  partners_at = [];
  refs = [];
  addressing = [];
  last_seen = now;
  alive = true;
  writing = true;
  outbox = [];
  closed = none;
}

-- `__init__`: no object exists yet, and what stands at a free address is of no account.
abbrev pub start : ℕ → Manager
start size = record {
  outbox_max = size;
  next = 0;
  object = λ c. connection 0 0;
  by_user = [];
  by_conversation = [];
}

-- A mutation of one object.
abbrev pub mutate : ℕ → Connection → Manager → Manager
mutate c k m = record m { object = λ i. if c == i then k else m.object i }

-- Dictionary of ids, read with the key as the default.
unfoldable pub canonical : Connection → ℕ → ℕ
canonical k ref = elim (get ref k.refs) [ none ↦ ref | some id ↦ id ]

-- `asyncio.Queue(maxsize)` has no bound when the size is 0.
abbrev pub is_full : ℕ → List Frame → Bool
is_full size q = not (size == 0) && leb size (length q)

abbrev pub enqueued : ℕ → Connection → Frame → Connection
enqueued size k f =
    if k.alive
    then (if is_full size k.outbox
        then record k { alive = false }
        else record k { outbox = k.outbox ++ f ∷ [] })
    else k

abbrev pub accepts : ℕ → Connection → Bool
accepts size k = k.alive && not (is_full size k.outbox)

unfoldable pub enqueue : ℕ → Frame → Manager → Bool × Manager
enqueue c f m =
    let k = m.object c in (accepts m.outbox_max k, mutate c (enqueued m.outbox_max k f) m)

unfoldable pub user_socket_count : ℕ → Manager → ℕ
user_socket_count user m = length (set_at user m.by_user)

-- Returns the address of the new object.
unfoldable pub register : ℕ → ℕ → Manager → ℕ × Manager
register user now m = (
  m.next,
  record (mutate m.next (connection user now) m) {
    next = m.next + 1;
    by_user = index_add user m.next m.by_user;
  },
)

-- The end of `_authenticate` in gateway.py, with its limit: none when the socket is closed.
unfoldable pub admit : ℕ → ℕ → ℕ → Manager → Option ℕ × Manager
admit most user now m =
    if leb most (user_socket_count user m)
    then (none, m)
    else (some (register user now m).0, (register user now m).1)

unfoldable pub detach_all : ℕ → List ℕ → List (ℕ × List ℕ) → List (ℕ × List ℕ)
detach_all c [] idx = idx
detach_all c (v ∷ vs) idx = detach_all c vs (index_remove v c idx)

-- What `unregister` and then `stop` leave of the object: the mark goes into the outbox if there is
-- room, and the writer is cancelled. Its close code is that of the first call.
abbrev pub stopped : ℕ → ℕ → Connection → Connection
stopped size code k = record k {
  subscriptions = [];
  refs = [];
  addressing = [];
  alive = false;
  writing = false;
  outbox = if is_full size k.outbox then k.outbox else k.outbox ++ shutdown_mark ∷ [];
  closed = (elim k.closed [ none ↦ some code | some first ↦ some first ]);
}

unfoldable pub unregister : ℕ → ℕ → Manager → Manager
unregister code c m =
    let k = m.object c in
    record (mutate c (stopped m.outbox_max code k) m) {
      by_user = index_remove k.user_id c m.by_user;
      by_conversation = detach_all c k.subscriptions m.by_conversation;
    }

-- The handler's three writes before `subscribe`, then `subscribe` itself.
abbrev pub cached : ℕ → List ℕ → ℕ → ℕ → Connection → Connection
cached v others now address k = record k {
  partners = put v others k.partners;
  partners_at = put v now k.partners_at;
  addressing = put v address k.addressing;
}

unfoldable pub subscribe : ℕ → ℕ → Option ℕ → Manager → Manager
subscribe c v ref m =
    let k = m.object c in
    record (mutate c
      (record k {
        subscriptions = add v k.subscriptions;
        refs = put (elim ref [ none ↦ v | some r ↦ r ]) v k.refs;
      })
      m) { by_conversation = index_add v c m.by_conversation }

unfoldable pub on_subscribe : ℕ → ℕ → ℕ → List ℕ → ℕ → ℕ → Manager → Manager
on_subscribe c v ref others now address m =
    subscribe c v (some ref) (mutate c (cached v others now address (m.object c)) m)

-- The refs that do not lead to a conversation.
unfoldable pub other_refs : ℕ → List (ℕ × ℕ) → List (ℕ × ℕ)
other_refs v [] = []
other_refs v ((r, target) ∷ refs) =
    let rest = other_refs v refs in if target == v then rest else (r, target) ∷ rest

abbrev pub without : ℕ → Connection → Connection
without v k = record k {
  subscriptions = discard v k.subscriptions;
  partners = delete v k.partners;
  partners_at = delete v k.partners_at;
  addressing = delete v k.addressing;
  refs = other_refs v k.refs;
}

unfoldable pub unsubscribe : ℕ → ℕ → Manager → Manager
unsubscribe c ref m =
    let k = m.object c in
    record (mutate c (without (canonical k ref) k) m) {
      by_conversation = index_remove (canonical k ref) c m.by_conversation;
    }

unfoldable pub touch : ℕ → ℕ → Manager → Manager
touch now c m = mutate c (record (m.object c) { last_seen = now }) m

-- One turn of the writer, `_run`, on the frames of the outbox: the mark ends it; the socket takes
-- the first frame or fails, and a failure ends the writer and marks the connection as dead.
abbrev pub written : Bool → List Frame → Connection → Connection
written works [] k = k
written works (shutdown_mark ∷ q) k = record k { outbox = q; writing = false }
written works (f ∷ q) k = record k { outbox = q; writing = works; alive = (works && k.alive) }

unfoldable pub write : Bool → ℕ → Manager → Manager
write works c m =
    let k = m.object c in mutate c (if k.writing then written works k.outbox k else k) m
