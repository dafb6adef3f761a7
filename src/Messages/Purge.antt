-- ===== src/Messages/Purge.antt =====
-- The purge of backend/app/shared/message_retention.py ends, and purges what is eligible.
use lc_connect.Base.{ℕ, ◌≡◌, ◌+◌, not, List, filter_rows, count_if, length, map}
use lc_connect.Messages.Defs.{Message}
use lc_connect.Messages.Cursors.{Keyed}
use lc_connect.Messages.Retention.{is_eligible, delete_rows}
use lc_connect.Messages.Deletion.{bare}

-- The messages of `after` are those of `before` that are not to be purged, but for what they quote.
abbrev pub Purged : ℕ → List Message → List Message → Type 0
Purged cutoff before after =
    (count_if (is_eligible cutoff) after ≡ 0)
    × (map bare after ≡ map bare (filter_rows (λ m. not (is_eligible cutoff m)) before))

-- What a batch is to the messages, when it is deleted.
abbrev Deletes : ℕ → List Message → List Message → Type 0
Deletes cutoff ms b =
    (count_if (is_eligible cutoff) (delete_rows b ms) + length b ≡ count_if (is_eligible cutoff) ms)
    × Keyed (delete_rows b ms)
    × (map bare (filter_rows (λ m. not (is_eligible cutoff m)) (delete_rows b ms))
        ≡ map bare (filter_rows (λ m. not (is_eligible cutoff m)) ms))
