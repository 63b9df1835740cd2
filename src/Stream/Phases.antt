-- ===== src/Stream/Phases.antt =====
-- The life of a stream of contracts/stream/src/lib.rs as a state machine: running, paused, cancelled.
use conduit_contracts.Base.{
  ℕ, ◌<◌, ◌≡◌, inl, inr, refl, ◌+ℤ◌, ◌∙◌, true, false, some, ℤ, ok, if◌then◌else◌, Bool-cases,
}
use conduit_contracts.Host.{Host, Address}
use conduit_contracts.Stream.Storage.{StreamInfo, is_cancelled, is_paused}
use conduit_contracts.Stream.State.{Env}
use conduit_contracts.Stream.Payments.{withdraw}
use conduit_contracts.Stream.Settlement.{clawback, settle}
use conduit_contracts.Stream.Flags.{
  flag_limit, set_paused_cancelled, clear_paused_cancelled, set_cancelled_paused,
}
use conduit_contracts.Stream.Invariant.{IsValid}
use conduit_contracts.Stream.Run.{Op, apply}
use conduit_contracts.Stream.Preservation.{discarded}
use conduit_contracts.Stream.Creation.{initialize_again}
use conduit_contracts.Stream.Withdrawal.{withdraw-Withdrawal}
use conduit_contracts.Stream.Pausing.{
  pause-Updated, resume-Updated, paused_info, resumed_info, paused_info-is_paused,
  resumed_info-is_paused,
}
use conduit_contracts.Stream.Shares.{settle-Settled}
use conduit_contracts.Stream.Cancellation.{cancel-settle, force_cancel-settle, bumped}
use conduit_contracts.Stream.Clawback.{clawback-Clawed}
use conduit_contracts.Stream.Funding.{extended, top_up-Deposited, extend_duration-Deposited}
use conduit_contracts.Stream.Handover.{transfer_recipient-ok}

pub data Phase : Type 0 where
  running paused cancelled : Phase

-- A cancelled stream may still have the paused flag.
unfoldable pub phase_of : StreamInfo → Phase
phase_of info = if is_cancelled info then cancelled else if is_paused info then paused else running

-- Running or paused.
pub data IsLive : Phase → Type 0 where
  running_live : IsLive running
  paused_live : IsLive paused

-- The edges of the machine, and the call that each belongs to.
pub data Edge : Op → Phase → Phase → Type 0 where
  pauses : Edge Op.pause running paused
  resumes : Edge Op.resume paused running
  cancels : {p : Phase} → IsLive p → Edge Op.cancel p cancelled
  forces : Edge Op.force_cancel paused cancelled
  withdraws : {p : Phase} (amount : ℤ) → IsLive p → Edge (Op.withdraw amount) p p
  claws_back : {p : Phase} → IsLive p → Edge Op.clawback p p
  tops_up : {p : Phase} (amount : ℤ) → IsLive p → Edge (Op.top_up amount) p p
  extends : {p : Phase} (extra : ℕ) → IsLive p → Edge (Op.extend_duration extra) p p
  hands_over : {p : Phase} (to : Address) → IsLive p → Edge (Op.transfer_recipient to) p p

phase_running :
    (i : StreamInfo) → is_cancelled i ≡ false → is_paused i ≡ false → phase_of i ≡ running
unfolding phase_of
phase_running i c p = rw (c, p) refl

phase_paused : (i : StreamInfo) → is_cancelled i ≡ false → is_paused i ≡ true → phase_of i ≡ paused
unfolding phase_of
phase_paused i c p = rw (c, p) refl

phase_cancelled : (i : StreamInfo) → is_cancelled i ≡ true → phase_of i ≡ cancelled
unfolding phase_of
phase_cancelled i c = rw c refl

phase-IsLive : (i : StreamInfo) → is_cancelled i ≡ false → IsLive (phase_of i)
phase-IsLive i c = elim (Bool-cases (is_paused i)) [
  | inl p ↦ rw (phase_paused i c p) paused_live
  | inr p ↦ rw (phase_running i c p) running_live
]

same_phase : (i j : StreamInfo) → j.flags ≡ i.flags → phase_of j ≡ phase_of i
unfolding phase_of is_cancelled is_paused
same_phase i j same = rw same refl

pause_leads_to :
    (now : ℕ) (info : StreamInfo)
    → info.flags < flag_limit
    → is_cancelled info ≡ false
    → phase_of (paused_info now info) ≡ paused
unfolding is_cancelled
pause_leads_to now info f u =
    phase_paused (paused_info now info) ((set_paused_cancelled info.flags f).kept ∙ u)
      (paused_info-is_paused now info f)

resume_leads_to :
    (now : ℕ) (info : StreamInfo)
    → info.flags < flag_limit
    → is_cancelled info ≡ false
    → phase_of (resumed_info now info) ≡ running
unfolding is_cancelled
resume_leads_to now info f u =
    phase_running (resumed_info now info) ((clear_paused_cancelled info.flags f).kept ∙ u)
      (resumed_info-is_paused now info f)

module _ {L : Type 0} ⦃host : Host L⦄ where
  abbrev Leads : Op → StreamInfo → Env L → Type 0
  Leads op info e' =
      (after : StreamInfo) × (e'.store.config ≡ some after)
      × Edge op (phase_of info) (phase_of after)

  settled_phase :
      (e e' : Env L) (info : StreamInfo)
      → e.store.config ≡ some info
      → info.flags < flag_limit
      → settle info e ≡ ok (tt, e')
      → (after : StreamInfo) × (e'.store.config ≡ some after) × (phase_of after ≡ cancelled)
  unfolding is_cancelled
  settled_phase e e' info c f h =
      let (_, _, _, _, s) = settle-Settled e e' info c h in
      (_, s.stored, phase_cancelled _ ((set_cancelled_paused info.flags f).now_set))

  -- Every successful call on a valid stream follows an edge of the machine: `pause` leads from
  -- running to paused and `resume` back, `cancel` from either to cancelled, `force_cancel` from
  -- paused to cancelled, and every other call leaves the phase. `initialize` never succeeds, and
  -- no call leads out of cancelled.
  pub apply_follows_phases :
      (op : Op) (e e' : Env L) (info : StreamInfo)
      → e.store.config ≡ some info
      → IsValid e.now info
      → apply op e ≡ ok (tt, e')
      → Leads op info e'
  unfolding apply
  apply_follows_phases (Op.initialize a b t r s n k) e e' info c v h =
      cc (initialize_again e a b t r s n k c)
  apply_follows_phases (Op.withdraw amount) e e' info c v h =
      let (sent, k) = discarded (withdraw amount) e e' h in
      let (_, w) = withdraw-Withdrawal e e' info amount sent c k in
      (
        _,
        w.stored,
        rw (same_phase info (record info { withdrawn = info.withdrawn +ℤ sent }) refl)
            (Edge.withdraws amount (phase-IsLive info w.uncancelled)),
      )
  apply_follows_phases Op.cancel e e' info c v h =
      let (u, _, settles) = cancel-settle e e' info c h in
      let (after, stored, last) = settled_phase (bumped e) e' info c v.flag_word settles in
      (after, stored, rw last (Edge.cancels (phase-IsLive info u)))
  apply_follows_phases Op.force_cancel e e' info c v h =
      let (u, p, _, _, settles) = force_cancel-settle e e' info c h in
      let (after, stored, last) = settled_phase (bumped e) e' info c v.flag_word settles in
      (after, stored, rw (last, phase_paused info u p) Edge.forces)
  apply_follows_phases Op.pause e e' info c v h =
      let (p, up) = pause-Updated e e' info c h in
      (
        paused_info e.now info,
        up.stored,
        rw
            (
              phase_running info up.uncancelled p,
              pause_leads_to e.now info v.flag_word up.uncancelled,
            )
            Edge.pauses,
      )
  apply_follows_phases Op.resume e e' info c v h =
      let (p, _, up) = resume-Updated e e' info c h in
      (
        resumed_info e.now info,
        up.stored,
        rw
            (
              phase_paused info up.uncancelled p,
              resume_leads_to e.now info v.flag_word up.uncancelled,
            )
            Edge.resumes,
      )
  apply_follows_phases Op.clawback e e' info c v h =
      let (amount, k) = discarded clawback e e' h in
      let (_, claw) = clawback-Clawed e e' info amount c k in
      (info, claw.unchanged, Edge.claws_back (phase-IsLive info claw.uncancelled))
  apply_follows_phases (Op.top_up amount) e e' info c v h =
      let (_, d) = top_up-Deposited e e' info amount c h in
      (info, d.stored, Edge.tops_up amount (phase-IsLive info d.uncancelled))
  apply_follows_phases (Op.extend_duration extra) e e' info c v h =
      let (_, _, _, d) = extend_duration-Deposited e e' info extra c h in
      (
        _,
        d.stored,
        rw (same_phase info (extended extra info) refl)
            (Edge.extends extra (phase-IsLive info d.uncancelled)),
      )
  apply_follows_phases (Op.transfer_recipient to) e e' info c v h =
      let (u, _, stored, _) = transfer_recipient-ok e e' info to c h in
      (
        _,
        stored,
        rw (same_phase info (record info { recipient = to }) refl)
            (Edge.hands_over to (phase-IsLive info u)),
      )
