-- ===== src/Invariant/Reports.antt =====
-- The results that the jobs of src/LDC1614.cpp leave in the queue, and the status of `poll`.
use ldc.Base.{
  if_cases, ℕ, ◌+◌, ◌≡◌, ◌∙◌, ap, Bool, true, false, not, arith, refl, ◌++◌, [], ◌∷◌, leb, u8, ◌!=◌,
}
use ldc.Status.{Status, is_ok, ok_status}
use ldc.Cmd
use ldc.Cmd.Reg
use ldc.Cmd.Mask
use ldc.Types.{JobKind, JobPhase, AppliedConfigState, TerminalOutcome}
use ldc.Config.{Channel, channel_index}
use ldc.Profile.{config_write_at, configuration_transfer_count}
use ldc.Registers.{advance_acquire_channel, transfer_failure_may_have_reached_device}
use ldc.Driver.{Driver, clear_active_job, configured_channel_count}
use ldc.Bus.{Bus, read_register, write_register, tracked}
use ldc.Jobs.{finish_job, push_result, terminal_result}
use ldc.Round.{Round, again, done, closed, at_register, count_transfer}
use ldc.Round.Apply.{
  reset_round, identity_round, replay_round, apply_round, failed_write, identity_step_at,
}
use ldc.Round.Acquire.{
  acquire_round, read_status_before_round, read_data_msb_round, read_data_lsb_round,
  read_status_after_round, invalid_round,
}
use ldc.Round.Ends.{apply_round_cases, acquire_round_cases}
use ldc.Invariant.{QueueInv}
use ldc.Invariant.Queue.{queued, newest}

-- The job of `d` goes on in `e`, and no result has come or gone.
pub record GoesOn (d e : Driver) : Type 0 where
  pub was_active : d.progress.active ≡ true
  pub active : e.progress.active ≡ true
  pub same_queue : queued e ≡ queued d
  pub same_head : e.result_head ≡ d.result_head
  pub same_count : e.result_count ≡ d.result_count
  pub same_id : e.progress.operation_id ≡ d.progress.operation_id
  pub same_kind : e.progress.kind ≡ d.progress.kind

-- The job of `d` is over in `e`: its one result, of status `s`, waits behind those that waited.
pub record Reports (s : Status) (d e : Driver) : Type 0 where
  pub idle : e.progress.active ≡ false
  pub one_more : queued e ≡ queued d ++ (newest e ∷ [])
  pub own_id : (newest e).operation_id ≡ d.progress.operation_id
  pub own_kind : (newest e).kind ≡ d.progress.kind
  pub own_status : (newest e).status ≡ s

pub finish_job-Reports :
    (o : TerminalOutcome) (s : Status) (t : ℕ) (d : Driver)
    → d.progress.active ≡ true
    → QueueInv d
    → Reports s d (finish_job o s t d).1
unfolding finish_job push_result clear_active_job terminal_result
finish_job-Reports o s t d a v = ground arith

failed_write-GoesOn :
    (s : Status) (p : JobPhase) (reg : ℕ) (c : Channel) (a : AppliedConfigState) (d : Driver)
    → d.progress.active ≡ true
    → GoesOn d (failed_write s p reg c a d)
unfolding failed_write
failed_write-GoesOn s p reg c a d h = ground arith

-- An active driver with the queue, and the job, of another.
pub stays :
    {d e : Driver}
    → d.progress.active ≡ true
    → e.progress.active ≡ d.progress.active
    → e.results ≡ d.results
    → e.result_head ≡ d.result_head
    → e.result_count ≡ d.result_count
    → (e.progress.operation_id ≡ d.progress.operation_id) × (e.progress.kind ≡ d.progress.kind)
    → GoesOn d e
stays {d} {e} a p r h c i = ground (arith, a, p, r, h, c, i)

pub GoesOn-QueueInv : {d e : Driver} → GoesOn d e → QueueInv d → QueueInv e
GoesOn-QueueInv {d} {e} g v = ground (arith, g, v)

pub GoesOn-trans : {d e f : Driver} → GoesOn d e → GoesOn e f → GoesOn d f
GoesOn-trans g h = record {
  was_active = g.was_active;
  active = h.active;
  same_queue = h.same_queue ∙ g.same_queue;
  same_head = h.same_head ∙ g.same_head;
  same_count = h.same_count ∙ g.same_count;
  same_id = h.same_id ∙ g.same_id;
  same_kind = h.same_kind ∙ g.same_kind;
}

pub Reports-after : {s : Status} {d e f : Driver} → GoesOn d e → Reports s e f → Reports s d f
Reports-after {f = f} g r = record {
  idle = r.idle;
  one_more = r.one_more ∙ ap (λ q. q ++ (newest f ∷ [])) g.same_queue;
  own_id = r.own_id ∙ g.same_id;
  own_kind = r.own_kind ∙ g.same_kind;
  own_status = r.own_status;
}

-- A job that ends after steps that leave the queue.
ends :
    (o : TerminalOutcome) (s : Status) (t : ℕ) (d e : Driver)
    → GoesOn d e
    → QueueInv d
    → Reports s d (finish_job o s t e).1
ends o s t d e g v = Reports-after g (finish_job-Reports o s t e g.active (GoesOn-QueueInv g v))

abbrev pub RoundReports : {W : Type 0} → Driver → Round W → Type 0
RoundReports d (again e w) = GoesOn d e
RoundReports d (done s e w) = Reports s d e
RoundReports d (closed s e w) = Reports s d e

module _ {W : Type 0} (bus : Bus W) (now timeout : ℕ) (d : Driver) (w : W) where
  reset_round-Reports :
      d.progress.active ≡ true → QueueInv d → RoundReports d (reset_round bus now timeout d w)
  unfolding reset_round write_register tracked finish_job
  reset_round-Reports a v =
      let e = at_register JobPhase.software_reset Reg.reset_dev Channel.none d in
      let t = write_register bus Reg.reset_dev Mask.reset_dev timeout e w in
      let counted = count_transfer t.driver in
      let same : GoesOn d counted = stays a refl refl refl refl (refl, refl) in
      if_cases (RoundReports d) (is_ok t.status) _ _ (λ _. stays a refl refl refl refl (refl, refl))
        (λ _.
          ends TerminalOutcome.failed t.status now d _
            (GoesOn-trans same (failed_write-GoesOn _ _ _ _ _ counted a)) v)

  identity_round-Reports :
      (index : ℕ)
      → d.progress.active ≡ true
      → QueueInv d
      → RoundReports d (identity_round bus now timeout index d w)
  unfolding identity_round read_register tracked finish_job
  identity_round-Reports index a v =
      let step = identity_step_at index in
      let e = at_register step.phase step.reg Channel.none d in
      let t = read_register bus step.reg timeout e w in
      if_cases (RoundReports d) (not (is_ok t.status)) _ _
        (λ _.
          ends TerminalOutcome.failed t.status now d _ (stays a refl refl refl refl (refl, refl)) v)
        (λ _.
          if_cases (RoundReports d) (t.value != step.expected) _ _
            (λ _.
              ends TerminalOutcome.failed _ now d _ (stays a refl refl refl refl (refl, refl)) v)
            (λ _. stays a refl refl refl refl (refl, refl)))

  replay_round-Reports :
      (k : ℕ)
      → d.progress.active ≡ true
      → QueueInv d
      → RoundReports d (replay_round bus now timeout k d w)
  unfolding replay_round write_register tracked finish_job
  replay_round-Reports k a v =
      let count = configured_channel_count d in
      let row = config_write_at d.config count k in
      let e = at_register row.phase row.reg row.channel d in
      let t = write_register bus row.reg row.value timeout e w in
      let counted = count_transfer t.driver in
      let same : GoesOn d counted = stays a refl refl refl refl (refl, refl) in
      if_cases (RoundReports d) (not row.valid) _ _
        (λ _.
          ends TerminalOutcome.success ok_status now d _ (stays a refl refl refl refl (refl, refl))
            v)
        (λ _.
          if_cases (RoundReports d) (not (is_ok t.status)) _ _
            (λ _.
              ends TerminalOutcome.failed t.status now d _
                (GoesOn-trans same (failed_write-GoesOn _ _ _ _ _ counted a)) v)
            (λ _.
              if_cases (RoundReports d) (leb (configuration_transfer_count count) (u8 (k + 1))) _ _
                (λ _.
                  ends TerminalOutcome.success ok_status now d _
                    (stays a refl refl refl refl (refl, refl)) v)
                (λ _. stays a refl refl refl refl (refl, refl))))

  pub apply_round-Reports :
      (kind : JobKind) (reset : Bool)
      → d.progress.active ≡ true
      → QueueInv d
      → RoundReports d (apply_round bus kind reset now timeout d w)
  apply_round-Reports kind reset a v =
      apply_round_cases bus (RoundReports d) kind reset now timeout d w
        (λ _. reset_round-Reports a v) (λ _. identity_round-Reports _ a v)
        (λ _ _. replay_round-Reports _ a v)

  pub acquire_round-Reports :
      d.progress.active ≡ true → QueueInv d → RoundReports d (acquire_round bus now timeout d w)
  unfolding read_status_before_round read_data_msb_round read_data_lsb_round read_status_after_round
      invalid_round read_register tracked finish_job advance_acquire_channel
  acquire_round-Reports a v =
      let index = channel_index d.job_channel in
      let at = λ (reg : ℕ) (ch : Channel). at_register d.progress.phase reg ch d in
      let ok =
        λ (reg : ℕ) (ch : Channel). is_ok (read_register bus reg timeout (at reg ch) w).status in
      acquire_round_cases bus (RoundReports d) now timeout d w
        (λ _.
          if_cases (RoundReports d) (ok Reg.status Channel.none) _ _
            (λ _. stays a refl refl refl refl (refl, refl))
            (λ _.
              ends TerminalOutcome.failed _ now d _
                (if_cases (GoesOn d)
                  (transfer_failure_may_have_reached_device
                    (read_register bus Reg.status timeout (at Reg.status Channel.none) w).status)
                  _ _ (λ _. stays a refl refl refl refl (refl, refl))
                  (λ _. stays a refl refl refl refl (refl, refl)))
                v))
        (λ _.
          if_cases (RoundReports d) (ok (Cmd.reg_data_msb index) d.job_channel) _ _
            (λ _. stays a refl refl refl refl (refl, refl))
            (λ _.
              ends TerminalOutcome.failed _ now d _ (stays a refl refl refl refl (refl, refl)) v))
        (λ _.
          if_cases (RoundReports d) (ok (Cmd.reg_data_lsb index) d.job_channel) _ _
            (λ _. stays a refl refl refl refl (refl, refl))
            (λ _.
              ends TerminalOutcome.failed _ now d _ (stays a refl refl refl refl (refl, refl)) v))
        (λ _.
          if_cases (RoundReports d) (ok Reg.status Channel.none) _ _
            (λ _.
              ends TerminalOutcome.success ok_status now d _
                (stays a refl refl refl refl (refl, refl)) v)
            (λ _.
              ends TerminalOutcome.failed _ now d _ (stays a refl refl refl refl (refl, refl)) v))
        (λ _. finish_job-Reports TerminalOutcome.failed _ now d a v)
