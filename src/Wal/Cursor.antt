-- ===== src/Wal/Cursor.antt =====
-- internal/wal/wal.go: SetCursor and ApplyBackfillPolicy, the cursor and the queue.
use influx_sync.Base.{
  Bool, ne→==, sym, ◌∙◌, ==_refl, ==_iff, true, false, if◌then◌else◌, ◌↔◌, ◌≢◌, arith, ◌==◌, ℕ, ◌≡◌,
  refl, Result, ok, err, le_int64, if_both, inl, inr, ◌⊎◌,
}
use influx_sync.Wal.{
  Wal, WalError, cursor_regress, set_cursor, persist, backfill_none_ns, rewinds,
  apply_backfill_policy,
}
use mathlib.Core.Path.{subst}
use mathlib.Core.Bool.{true≢false, false≢true}
use influx_sync.Wal.Queue.{Queue, Represents}
use influx_sync.Wal.Confirming.{saved-Represents}

moved :
    (w : Wal) (ts : ℕ) (q : Queue)
    → Represents w q
    → Represents (record w { cp = record w.cp { cursor_ns = ts } }) q
moved w ts q r = record {
  stands = record {
    holds = r.holds;
    ordered = r.ordered;
    numbered = r.numbered;
    acked_fits = r.acked_fits;
  };
  open_file = r.open_file;
  closed = r.closed;
}

-- SetCursor leaves the queue and the numbers alone: it moves the cursor, or it fails and does not.
pub set_cursor-Represents :
    (w : Wal) (now ts : ℕ) (q : Queue)
    → Represents w q
    → (let r = set_cursor w now ts in
        Represents r.0 q
        × (r.0.cp.next_seq ≡ w.cp.next_seq)
        × (((r.1 ≡ ok tt) × (r.0.cp.cursor_ns ≡ ts))
            ⊎ ((r.1 ≡ err cursor_regress) × (r.0.cp.cursor_ns ≡ w.cp.cursor_ns))))
unfolding set_cursor persist
set_cursor-Represents w now ts q r =
    if_both
      (λ (p : Wal × Result WalError (Unit {0})).
        Represents p.0 q
        × (p.0.cp.next_seq ≡ w.cp.next_seq)
        × (((p.1 ≡ ok tt) × (p.0.cp.cursor_ns ≡ ts))
            ⊎ ((p.1 ≡ err cursor_regress) × (p.0.cp.cursor_ns ≡ w.cp.cursor_ns))))
      (le_int64 w.cp.cursor_ns ts) _ _
      (λ forward. (
        saved-Represents (record w { cp = record w.cp { cursor_ns = ts } }) now q (moved w ts q r),
        refl,
        inl (refl, refl),
      ))
      (λ back. (r, refl, inr (refl, refl)))

-- What rewinds the cursor: a checkpoint with a recorded policy, that is another one, asks for data,
-- and has a positive boundary before the cursor.
abbrev pub Rewinds : Wal → ℕ → ℕ → Type 0
Rewinds w policy_ns boundary_ns =
    (w.legacy_checkpoint ≡ false)
    × (w.cp.backfill_ns ≢ policy_ns)
    × (policy_ns ≢ backfill_none_ns)
    × (le_int64 boundary_ns 0 ≡ false)
    × (le_int64 w.cp.cursor_ns boundary_ns ≡ false)

rewinds_iff :
    (w : Wal) (policy_ns boundary_ns : ℕ)
    → (rewinds w policy_ns boundary_ns ≡ true) ↔ (
        (policy_ns ≢ backfill_none_ns)
        × (le_int64 boundary_ns 0 ≡ false)
        × (le_int64 w.cp.cursor_ns boundary_ns ≡ false))
unfolding rewinds
rewinds_iff w policy_ns boundary_ns = (
  λ e. (λ same. ground (arith, e, same), ground (arith, e), ground (arith, e)),
  λ (ne, positive, behind). rw (ne→== policy_ns backfill_none_ns ne, positive, behind) refl,
)

-- What a call has left, and what a further one does.
abbrev Applied : Wal → ℕ → ℕ → ℕ → ℕ → Wal × Bool → Type 0
Applied w now' policy_ns boundary_ns boundary_ns' p =
    ((p.1 ≡ true) ↔ Rewinds w policy_ns boundary_ns)
    × (p.0.cp.cursor_ns ≡ (if p.1 then boundary_ns else w.cp.cursor_ns))
    × (apply_backfill_policy p.0 now' policy_ns boundary_ns' ≡ (p.0, false))

settled :
    (w : Wal) (now policy_ns boundary_ns : ℕ)
    → w.legacy_checkpoint ≡ false
    → (w.cp.backfill_ns == policy_ns) ≡ true
    → apply_backfill_policy w now policy_ns boundary_ns ≡ (w, false)
unfolding apply_backfill_policy
settled w now policy_ns boundary_ns el es = rw (el, es) refl

policy_at :
    (w : Wal) (now now' policy_ns boundary_ns boundary_ns' : ℕ) (legacy same : Bool)
    → w.legacy_checkpoint ≡ legacy
    → (w.cp.backfill_ns == policy_ns) ≡ same
    → Applied w now' policy_ns boundary_ns boundary_ns'
        (apply_backfill_policy w now policy_ns boundary_ns)
unfolding apply_backfill_policy persist
policy_at w now now' policy_ns boundary_ns boundary_ns' true same el es =
    rw (el, ==_refl policy_ns)
      ((λ e. absurd (false≢true e), λ h. absurd (true≢false h.0)), refl, refl)
policy_at w now now' policy_ns boundary_ns boundary_ns' false true el es =
    let is : w.cp.backfill_ns ≡ policy_ns = (==_iff w.cp.backfill_ns policy_ns).0 es in
    subst (Applied w now' policy_ns boundary_ns boundary_ns')
      (sym (settled w now policy_ns boundary_ns el es))
      (
        (λ e. absurd (false≢true e), λ h. absurd (h.1 is)),
        refl,
        settled w now' policy_ns boundary_ns' el es,
      )
policy_at w now now' policy_ns boundary_ns boundary_ns' false false el es =
    let other : w.cp.backfill_ns ≢ policy_ns =
      λ e. absurd (true≢false (sym ((==_iff w.cp.backfill_ns policy_ns).1 e) ∙ es)) in
    let turn = rewinds_iff w policy_ns boundary_ns in
    rw (el, es, ==_refl policy_ns)
      (
        (
          λ e. let (ne, positive, behind) = turn.0 e in (refl, other, ne, positive, behind),
          λ h. turn.1 (h.2, h.3, h.4),
        ),
        refl,
        refl,
      )

-- Another cursor or policy, and the checkpoint saved.
resaved :
    (w : Wal) (now cursor policy_ns : ℕ) (legacy : Bool) (q : Queue)
    → Represents w q
    → Represents
        (persist
          (record w {
            cp = record w.cp { cursor_ns = cursor; backfill_ns = policy_ns };
            legacy_checkpoint = legacy;
          })
          now)
        q
resaved w now cursor policy_ns legacy q r =
    saved-Represents
      (record w {
        cp = record w.cp { cursor_ns = cursor; backfill_ns = policy_ns };
        legacy_checkpoint = legacy;
      })
      now q
      (record {
        stands = record {
          holds = r.holds;
          ordered = r.ordered;
          numbered = r.numbered;
          acked_fits = r.acked_fits;
        };
        open_file = r.open_file;
        closed = r.closed;
      })

policy-Represents :
    (w : Wal) (now policy_ns boundary_ns : ℕ) (q : Queue)
    → Represents w q
    → Represents (apply_backfill_policy w now policy_ns boundary_ns).0 q
unfolding apply_backfill_policy
policy-Represents w now policy_ns boundary_ns q r =
    if_both (λ (p : Wal × Bool). Represents p.0 q) w.legacy_checkpoint _ _
      (λ old. resaved w now w.cp.cursor_ns policy_ns false q r)
      (λ known.
        if_both (λ (p : Wal × Bool). Represents p.0 q) (w.cp.backfill_ns == policy_ns) _ _
          (λ same. r) (λ other. resaved w now _ policy_ns w.legacy_checkpoint q r))

-- ApplyBackfillPolicy takes the cursor to the boundary, and says so, exactly where the checkpoint has a
-- recorded policy, that is another one than is given, the given one asks for data, and the boundary is
-- positive and before the cursor. Else the cursor stays. A further call under the same policy, with
-- any boundary and at any time, changes nothing: a cursor is taken back once, and that of an old
-- checkpoint, which has no policy, not at all. The queue stays as it is.
pub apply_backfill_policy-once :
    (w : Wal) (now now' policy_ns boundary_ns boundary_ns' : ℕ) (q : Queue)
    → Represents w q
    → let p = apply_backfill_policy w now policy_ns boundary_ns in
      ((p.1 ≡ true) ↔ Rewinds w policy_ns boundary_ns)
      × (p.0.cp.cursor_ns ≡ (if p.1 then boundary_ns else w.cp.cursor_ns))
      × (apply_backfill_policy p.0 now' policy_ns boundary_ns' ≡ (p.0, false))
      × Represents p.0 q
apply_backfill_policy-once w now now' policy_ns boundary_ns boundary_ns' q r =
    let (turns, cursor, again) =
      policy_at w now now' policy_ns boundary_ns boundary_ns' w.legacy_checkpoint
        (w.cp.backfill_ns == policy_ns) refl refl in
    (turns, cursor, again, policy-Represents w now policy_ns boundary_ns q r)
