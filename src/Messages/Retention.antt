-- ===== src/Messages/Retention.antt =====
-- `purge_soft_deleted_messages` of backend/app/shared/message_retention.py, with what the foreign
-- keys of backend/app/models/messaging.py do when a message's row goes.
use lc_connect.Base.{
  ℕ, zero, suc, ◌+◌, ◌-◌, ◌*◌, Bool, false, not, Option, none, some, List, [], ◌∷◌, ◌==◌, ltb, leb,
  if◌then◌else◌, any_row, filter_rows, count_if, length, map, Result, ok, ◌>>◌, raise_if,
}
use lc_connect.Messages.Defs.{Message, Member, MessageEdit, Db}

abbrev pub is_before : ℕ → Option ℕ → Bool
is_before cutoff none = false
is_before cutoff (some t) = ltb t cutoff

-- `Message.deleted_at.is_not(None), Message.deleted_at < cutoff`
abbrev pub is_eligible : ℕ → Message → Bool
is_eligible cutoff m = is_before cutoff m.deleted_at

abbrev pub time_of : Option ℕ → ℕ
time_of none = 0
time_of (some t) = t

-- `order_by(Message.deleted_at.asc())`, of rows that have the time.
abbrev pub insert_by_time : Message → List Message → List Message
insert_by_time m [] = m ∷ []
insert_by_time m (x ∷ xs) =
    let rest = insert_by_time m xs in
    if leb (time_of m.deleted_at) (time_of x.deleted_at) then m ∷ x ∷ xs else x ∷ rest

abbrev pub order_by_time : List Message → List Message
order_by_time [] = []
order_by_time (m ∷ ms) = insert_by_time m (order_by_time ms)

-- `limit`
abbrev pub limit : ℕ → List Message → List Message
limit zero ms = []
limit (suc n) [] = []
limit (suc n) (m ∷ ms) = m ∷ limit n ms

unfoldable pub batch : ℕ → ℕ → List Message → List Message
batch size cutoff ms = limit size (order_by_time (filter_rows (is_eligible cutoff) ms))

abbrev pub in_batch : List Message → ℕ → Bool
in_batch b i = any_row (λ m. m.id == i) b

-- `ON DELETE SET NULL`
abbrev pub unlinked : List Message → Option ℕ → Option ℕ
unlinked b none = none
unlinked b (some i) = if in_batch b i then none else some i

abbrev pub unquoted : List Message → Message → Message
unquoted b m = record m { reply_to_id = unlinked b m.reply_to_id }

unfoldable pub delete_rows : List Message → List Message → List Message
delete_rows b [] = []
delete_rows b (m ∷ ms) =
    let rest = delete_rows b ms in if in_batch b m.id then rest else unquoted b m ∷ rest

abbrev pub forgotten : List Message → Member → Member
forgotten b k = record k {
  last_read = unlinked b k.last_read;
  last_delivered = unlinked b k.last_delivered;
}

-- `delete(Message).where(Message.id.in_(ids))`: edits go with their message.
abbrev pub delete_batch : List Message → Db → Db
delete_batch b db = record db {
  messages = delete_rows b db.messages;
  edits = filter_rows (λ e. not (in_batch b e.message_id)) db.edits;
  members = map (forgotten b) db.members;
}

-- `while True`, on fuel; `purged` counts.
unfoldable pub purge_loop : ℕ → ℕ → ℕ → ℕ → Db → Option (ℕ × Db)
purge_loop zero size cutoff purged db = none
purge_loop (suc n) size cutoff purged db = elim (batch size cutoff db.messages) [
  | [] ↦ some (purged, db)
  | m ∷ b ↦ purge_loop n size cutoff (purged + length (m ∷ b)) (delete_batch (m ∷ b) db)
]

pub data PurgeError : Type 0 where
  bad_retention_days bad_batch_size date_overflow : PurgeError

pub record PurgeReport : Type 0 where
  pub eligible : ℕ
  pub purged : ℕ
  pub edits_purged : ℕ

abbrev pub is_old : ℕ → MessageEdit → Bool
is_old cutoff e = ltb e.edited_at cutoff

-- The edits' own pass, after the loop.
abbrev pub purge_edits : ℕ → ℕ → Option (ℕ × Db) → Option (PurgeReport × Db)
purge_edits cutoff eligible none = none
purge_edits cutoff eligible (some (purged, db)) = some (
  record { eligible = eligible; purged = purged; edits_purged = count_if (is_old cutoff) db.edits },
  record db { edits = filter_rows (λ e. not (is_old cutoff e)) db.edits },
)

abbrev pub microseconds_of_days : ℕ → ℕ
microseconds_of_days n = n * 86400000000

abbrev pub purge_before : ℕ → ℕ → ℕ → Bool → Db → Option (PurgeReport × Db)
purge_before fuel cutoff size apply db =
    let eligible = count_if (is_eligible cutoff) db.messages in
    if apply
    then purge_edits cutoff eligible (purge_loop fuel size cutoff 0 db)
    else some (record { eligible = eligible; purged = 0; edits_purged = 0 }, db)

-- Time 0 is the first that can be represented: a cutoff before it is an exception.
unfoldable pub purge_soft_deleted_messages :
    ℕ → ℕ → Bool → ℕ → ℕ → Db → Result PurgeError (Option (PurgeReport × Db))
purge_soft_deleted_messages fuel days apply now size db = do
  raise_if (ltb days 1) bad_retention_days
  raise_if (ltb size 1) bad_batch_size
  raise_if (ltb now (microseconds_of_days days)) date_overflow
  ok (purge_before fuel (now - microseconds_of_days days) size apply db)
