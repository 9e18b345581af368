-- ===== src/Plc/Sound/Recovery.antt =====
-- The recovery of src/plc.rs: `begin_recovery` and `recover`.
use rate_adjusting_pcm_ring.Common.{
  ℕ, ◌+◌, ◌-◌, ◌%◌, ◌≡◌, ◌≢◌, inl, inr, refl, sym, subst, Bool, true, false, Bool-cases, arith,
  ◌==◌, ==_iff, if◌then◌else◌,
}
use rate_adjusting_pcm_ring.Float.{Single}
use rate_adjusting_pcm_ring.Plc.State.{Plc}
use rate_adjusting_pcm_ring.Plc.Wave.{substitution}
use rate_adjusting_pcm_ring.Plc.Process.{begin_recovery, recover}
use rate_adjusting_pcm_ring.Plc.Sound.{
  IsSound, moved, moved-IsRepeating, moved-IsSized, substitution_moves, inside_cycle,
}

module _ {F : Type 0} ⦃single : Single F⦄ where
  begin_recovery-IsSound : (p : Plc F) → IsSound p → p.lost ≢ 0 → IsSound (begin_recovery p)
  unfolding begin_recovery
  begin_recovery-IsSound p v busy = record {
    sized = let z = v.sized in assumption;
    some_time = v.some_time;
    short_time = v.short_time;
    losing = λ h. absurd (h refl);
    recovering = λ h. let w = (v.losing busy).0 in assumption;
  }

  recover_step-IsSound :
      (p : Plc F) (left : ℕ)
      → IsSound p
      → p.lost ≡ 0
      → p.recovery_left ≢ 0
      → IsSound (record (substitution p).1 { recovery_left = left })
  recover_step-IsSound p left v found busy =
      let w = v.recovering busy in
      let m : Plc F = moved p ((p.phase + 1) % p.cycle) (p.overlap_left - 1) in
      let still =
        moved-IsRepeating p ((p.phase + 1) % p.cycle) (p.overlap_left - 1) w
          (inside_cycle p v.sized w) (omega arith) in
      let z = moved-IsSized p ((p.phase + 1) % p.cycle) (p.overlap_left - 1) v.sized in
      let all : IsSound (record m { recovery_left = left }) = record {
        sized = assumption;
        some_time = v.some_time;
        short_time = v.short_time;
        losing = λ h. absurd (h found);
        recovering = λ h. assumption;
      } in
      subst (λ (q : Plc F). IsSound (record q { recovery_left = left }))
        (sym (substitution_moves p)) all

  -- The first real sample behind a loss starts the recovery.
  started :
      (p : Plc F)
      → IsSound p
      → let q = if p.lost == 0 then p else begin_recovery p in IsSound q × (q.lost ≡ 0)
  unfolding begin_recovery
  started p v = elim (Bool-cases (p.lost == 0)) [
    | inl e ↦ through (p.lost == 0) (λ _. (v, (==_iff p.lost 0).0 e)) (λ h. cc)
    | inr e ↦
        through (p.lost == 0) (λ h. cc)
          (λ _. (begin_recovery-IsSound p v (λ z. cc (e, (==_iff p.lost 0).1 z)), refl))
  ]
    where
      through :
          (b : Bool)
          → (b ≡ true → IsSound p × (p.lost ≡ 0))
          → (b ≡ false → IsSound (begin_recovery p) × ((begin_recovery p).lost ≡ 0))
          → let q = if b then p else begin_recovery p in IsSound q × (q.lost ≡ 0)
      through true h k = h refl
      through false h k = k refl

  -- The sample and the state behind the test for a recovery.
  abbrev recover_or : Plc F → F → F → ℕ → Bool → F × Plc F
  recover_or p x output left over =
      if over then (x, p) else (output, record (substitution p).1 { recovery_left = left })

  recover_body :
      (p : Plc F) (x output : F) (left : ℕ)
      → IsSound p
      → p.lost ≡ 0
      → IsSound (recover_or p x output left (p.recovery_left == 0)).1
  recover_body p x output left v found =
      through (p.recovery_left == 0)
        (λ e. recover_step-IsSound p left v found (λ z. cc (e, (==_iff p.recovery_left 0).1 z)))
    where
      through :
          (b : Bool)
          → (b ≡ false → IsSound (record (substitution p).1 { recovery_left = left }))
          → IsSound (recover_or p x output left b).1
      through true h = v
      through false h = h refl

  pub recover-IsSound : (p : Plc F) (x : F) → IsSound p → IsSound (recover p x).1
  unfolding recover
  recover-IsSound p x v =
      let q : Plc F = if p.lost == 0 then p else begin_recovery p in
      let (sound, found) = started p v in
      recover_body q x _ ((substitution q).1.recovery_left - 1) sound found
