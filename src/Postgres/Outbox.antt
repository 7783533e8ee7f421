-- ===== src/Postgres/Outbox.antt =====
-- The outbox of the Postgres store, backend/internal/room/adapter/postgres/outbox.go. A claim token
-- is sixteen random bytes in hexadecimal, a parameter. The lease and the times are exact: the store
-- keeps microseconds of them, and that rounding is left out.
use rock_paper_money.Prelude.{
  ltb, if◌then◌else◌, length, ◌==◌, nat_eq, bool_eq, string_eq, ℕ, zero, suc, String, Bool, true,
  false, not, ◌&&◌, ◌||◌, Option, none, some, List, [], ◌∷◌,
}
use rock_paper_money.Prelude.Int.{ℤ, pos_part, ◌+ℤ◌, ◌-ℤ◌, ltb_ℤ, leb_ℤ, int_eq, pos}
use rock_paper_money.Prelude.Dict.{is_some}
use rock_paper_money.Failure.{ok, err, external}
use rock_paper_money.Game.{move_eq, result_eq}
use rock_paper_money.Action.{Action}
use rock_paper_money.Application.{Time}
use rock_paper_money.Worker.{Call}
use rock_paper_money.Worker.Outbox.{OutboxRecord, OutboxPendingStats}
use rock_paper_money.Postgres.{role_eq, status_eq, OutboxRow, Database}
use rock_paper_money.Postgres.Sql.{
  rows_where, exists_where, update_where, delete_where, sorted_rows,
}

-- The row waits for its publication.
abbrev pub is_unpublished : OutboxRow → Bool
is_unpublished o = not (is_some o.published_at)

-- `min(created_at)`
unfoldable pub oldest_created : Time → List OutboxRow → Time
oldest_created at [] = at
oldest_created at (o ∷ os) = oldest_created (if ltb_ℤ o.created_at at then o.created_at else at) os

abbrev pub oldest_age : Time → List OutboxRow → ℤ
oldest_age now [] = pos 0
oldest_age now (o ∷ os) =
    let oldest = oldest_created o.created_at os in if ltb_ℤ oldest now then now -ℤ oldest else pos 0

unfoldable pub outbox_pending_stats : Time → Database → OutboxPendingStats
unfolding rows_where oldest_created
outbox_pending_stats now db =
    let waiting = rows_where is_unpublished db.outbox in
    record { backlog_depth = length waiting; oldest_pending_age = oldest_age now waiting }

abbrev pub is_unclaimed : Time → Option (String × Time) → Bool
is_unclaimed now none = true
is_unclaimed now (some (token, until)) = leb_ℤ until now

-- A record that `ClaimOutbox` may take.
unfoldable pub is_claimable : Time → OutboxRow → Bool
is_claimable now o = is_unpublished o && leb_ℤ o.next_attempt_at now && is_unclaimed now o.claim

-- `ORDER BY next_attempt_at,outbox_id`
unfoldable pub attempt_before : OutboxRow → OutboxRow → Bool
attempt_before o p =
    ltb_ℤ o.next_attempt_at p.next_attempt_at
    || o.next_attempt_at == p.next_attempt_at && ltb o.outbox_id p.outbox_id

-- `LIMIT`
unfoldable pub limited : ℕ → List OutboxRow → List OutboxRow
limited zero os = []
limited (suc n) [] = []
limited (suc n) (o ∷ os) = o ∷ limited n os

unfoldable pub is_chosen : ℕ → List OutboxRow → Bool
unfolding exists_where
is_chosen id chosen = exists_where (λ (o : OutboxRow). o.outbox_id == id) chosen

unfoldable pub claimed_by : String → Time → OutboxRow → OutboxRow
claimed_by token until o = record o { claim = some (token, until); attempts = suc o.attempts }

-- `RETURNING`
unfoldable pub records_of : String → List OutboxRow → List OutboxRecord
records_of token [] = []
records_of token (o ∷ os) =
    record {
      id = o.outbox_id;
      room_id = o.room_code;
      revision = o.revision;
      claim_token = token;
      attempts = suc o.attempts;
    }
    ∷ records_of token os

unfoldable pub claim_outbox : String → Time → ℤ → ℤ → Action Database (List OutboxRecord)
unfolding rows_where sorted_rows update_where is_claimable attempt_before limited is_chosen
    claimed_by records_of
claim_outbox token now limit lease db =
    if leb_ℤ limit (pos 0) || leb_ℤ lease (pos 0)
    then (err (external 10), db)
    else let chosen =
        limited (pos_part limit)
          (sorted_rows attempt_before (rows_where (is_claimable now) db.outbox)) in
      (
        ok (records_of token chosen),
        record db {
          outbox =
              update_where (λ (o : OutboxRow). is_chosen o.outbox_id chosen)
                (claimed_by token (now +ℤ lease)) db.outbox;
        },
      )

-- The row that a record is a claim of.
unfoldable pub is_claim_of : OutboxRecord → OutboxRow → Bool
is_claim_of r o =
    o.outbox_id == r.id
    && is_unpublished o
    && elim o.claim [ none ↦ false | some claim ↦ claim.0 == r.claim_token ]

-- The update of a row that is still claimed; otherwise `ErrOutboxClaimLost`.
unfoldable pub update_claimed : OutboxRecord → (OutboxRow → OutboxRow) → Action Database (Unit {0})
unfolding exists_where update_where is_claim_of
update_claimed r f db =
    if exists_where (is_claim_of r) db.outbox
    then (ok tt, record db { outbox = update_where (is_claim_of r) f db.outbox })
    else (err (external 11), db)

abbrev pub published : Time → OutboxRow → OutboxRow
published at o = record o { published_at = some at; claim = none }

abbrev pub released : Time → OutboxRow → OutboxRow
released at o = record o { next_attempt_at = at; claim = none }

unfoldable pub mark_outbox_published : OutboxRecord → Time → Action Database (Unit {0})
unfolding update_claimed
mark_outbox_published r published_at = update_claimed r (published published_at)

unfoldable pub release_outbox : OutboxRecord → Time → Action Database (Unit {0})
unfolding update_claimed
release_outbox r retry_at = update_claimed r (released retry_at)

abbrev pub is_published_before : Time → OutboxRow → Bool
is_published_before before o = elim o.published_at [ none ↦ false | some at ↦ ltb_ℤ at before ]

unfoldable pub cleanup_published_outbox : Time → Call Database ℕ
unfolding rows_where delete_where
cleanup_published_outbox before db = (
  length (rows_where (is_published_before before) db.outbox),
  none,
  record db { outbox = delete_where (is_published_before before) db.outbox },
)
