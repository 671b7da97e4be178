-- ===== src/Runner/Processes/Children.antt =====
-- TestRunner/ProcessManager.cpp: the children that the operations of a process leave.
use my_iperf.Prelude.{
  ℕ, zero, suc, ◌+◌, ◌/◌, ◌≡◌, refl, sym, subst, ap, ◌∙◌, Text, Bytes, Bool, true, false, Option,
  none, some, List, ◌∷◌, ◌⊎◌, inl, inr, Bool-cases, arith, if◌then◌else◌,
}
use my_iperf.Runner.Processes.{
  System, ProcessHandles, without, launched, launch_on, launch, close_pipe, end_child,
  terminate_process, add_output, read_output, timed_out, polled, ready_loop, wait_for_server_ready,
  capture_output, pieces_of, wait_for,
}

without_front : (p : ℕ) (qs : List ℕ) → without p (p ∷ qs) ≡ qs
unfolding without
without_front p qs = ground arith

module _ (system : System) where
  open system use {World, children, poll, wait, kill, close}

  -- `h` holds the last child of the world; the others are `others`.
  abbrev pub Holds : List ℕ → ProcessHandles → World → Type 0
  Holds others h w = (pid : ℕ) × (h.pid ≡ some pid) × (children w ≡ pid ∷ others)

  -- `h` holds the last child, or none.
  abbrev pub Owns : List ℕ → ProcessHandles → World → Type 0
  Owns others h w = Holds others h w ⊎ ((h.pid ≡ none) × (children w ≡ others))

  abbrev pub Launched : List ℕ → Bool × ProcessHandles × World → Type 0
  Launched others (true, h, w) = Holds others h w
  Launched others (false, h, w) = children w ≡ others

  abbrev pub Waited : List ℕ → Bool × ProcessHandles × World → Type 0
  Waited others (true, h, w) = Holds others h w
  Waited others (false, h, w) = Owns others h w

  launched-Launched :
      (others : List ℕ) (fd : ℕ) (h : ProcessHandles) (args : List Text) (w : World)
      (r : Option ℕ × World)
      → system.spawn args w ≡ r
      → children w ≡ others
      → Launched others (launched system fd h r)
  unfolding launched
  launched-Launched others fd h args w (none, v) e k =
      system.children-close fd v ∙ (system.children-spawn_none args w v e ∙ k)
  launched-Launched others fd h args w (some pid, v) e k =
      (pid, refl, system.children-spawn_some args w v pid e ∙ ap (◌∷◌ pid) k)

  launch_on-Launched :
      (others : List ℕ) (args : List Text) (h : ProcessHandles) (r : Option ℕ × World)
      → children r.1 ≡ others
      → Launched others (launch_on system args h r)
  unfolding launch_on
  launch_on-Launched others args h (none, w) k = k
  launch_on-Launched others args h (some fd, w) k =
      launched-Launched others fd h args w (system.spawn args w) refl k

  pub launch-Launched :
      (others : List ℕ) (path : Text) (args : List Text) (h : ProcessHandles) (w : World)
      → children w ≡ others
      → Launched others (launch system path args h w)
  unfolding launch
  launch-Launched others path args h w k = elim (Bool-cases (system.is_executable path w)) [
    | inl e ↦ subst At (sym e) (
        launch_on-Launched others (path ∷ args) h (system.open_pipe w)
          (system.children-open_pipe w ∙ k))
    | inr e ↦ subst At (sym e) k
  ]
    where
      At : Bool → Type 0
      At b =
          Launched others
            (if b then launch_on system (path ∷ args) h (system.open_pipe w) else (false, h, w))

  closed : (fd : Option ℕ) (w : World) → children (close_pipe system fd w) ≡ children w
  unfolding close_pipe
  closed none w = refl
  closed (some fd) w = system.children-close fd w

  reaped :
      (pid : ℕ) (others : List ℕ) (w : World)
      → children w ≡ pid ∷ others
      → children (wait pid w) ≡ others
  reaped pid others w e =
      system.children-wait pid w ∙ (ap (without pid) e ∙ without_front pid others)

  end_child-Owns :
      (others : List ℕ) (h : ProcessHandles) (w : World) (o : Option ℕ)
      → h.pid ≡ o
      → Owns others h w
      → children (end_child system h w o).1 ≡ others
  unfolding end_child
  end_child-Owns others h w none e (inl (pid, e', k)) = cc
  end_child-Owns others h w none e (inr (e', k)) = closed h.pipe_read_fd w ∙ k
  end_child-Owns others h w (some p) e (inl (pid, e', k)) =
      let same : pid ≡ p = cc (e, e') in
      closed h.pipe_read_fd _
      ∙ reaped p others (kill p w) (system.children-kill p w ∙ (k ∙ ap (λ x. x ∷ others) same))
  end_child-Owns others h w (some p) e (inr (e', k)) = cc

  pub terminate_process-Owns :
      (others : List ℕ) (h : ProcessHandles) (w : World)
      → Owns others h w
      → children (terminate_process system h w).1 ≡ others
  unfolding terminate_process
  terminate_process-Owns others h w o = end_child-Owns others h w h.pid refl o

  pieces_kept : (fd : Option ℕ) (w : World) → children (pieces_of system fd w).1 ≡ children w
  unfolding pieces_of
  pieces_kept none w = refl
  pieces_kept (some fd) w = system.children-read_to_end fd w

  pub capture_output-Holds :
      (others : List ℕ) (h : ProcessHandles) (w : World)
      → Holds others h w
      → children (capture_output system h w).2 ≡ others
  unfolding capture_output wait_for
  capture_output-Holds others h w (pid, e, k) =
      let v = (pieces_of system h.pipe_read_fd w).1 in
      closed h.pipe_read_fd _
      ∙ (ap (λ o. children (wait_for system o v)) e
          ∙ reaped pid others v (pieces_kept h.pipe_read_fd w ∙ k))

  -- A child that is still held, by its number.
  abbrev HoldsPid : List ℕ → ℕ → ProcessHandles → World → Type 0
  HoldsPid others pid h w = (h.pid ≡ some pid) × (children w ≡ pid ∷ others)

  add_output-HoldsPid :
      (others : List ℕ) (pid : ℕ) (h : ProcessHandles) (r : Option Bytes × World)
      → HoldsPid others pid h r.1
      → let (got, h', v) = add_output system h r in HoldsPid others pid h' v
  unfolding add_output
  add_output-HoldsPid others pid h (none, w) k = k
  add_output-HoldsPid others pid h (some output, w) k = k

  read_output-HoldsPid :
      (others : List ℕ) (pid : ℕ) (h : ProcessHandles) (w : World) (fd : Option ℕ)
      → HoldsPid others pid h w
      → let (got, h', v) = read_output system h w fd in HoldsPid others pid h' v
  unfolding read_output
  read_output-HoldsPid others pid h w none k = k
  read_output-HoldsPid others pid h w (some fd) k =
      add_output-HoldsPid others pid h (system.read fd w) (k.0, system.children-read fd w ∙ k.1)

  Further : (ProcessHandles → World → Bool × ProcessHandles × World) → List ℕ → ℕ → Type 0
  Further further others pid =
      (h : ProcessHandles) (w : World) → HoldsPid others pid h w → Waited others (further h w)

  polled-Waited :
      (further : ProcessHandles → World → Bool × ProcessHandles × World) (others : List ℕ) (pid : ℕ)
      → Further further others pid
      → (h : ProcessHandles) (w : World) (r : Bool × World) → poll pid w ≡ r
      → HoldsPid others pid h w
      → Waited others (polled system further h r)
  unfolding polled Further
  polled-Waited further others pid ih h w (true, v) e (p, k) =
      inr (
        refl,
        system.children-poll_true pid w v e ∙ (ap (without pid) k ∙ without_front pid others),
      )
  polled-Waited further others pid ih h w (false, v) e (p, k) =
      ih h (system.sleep v)
        (p, system.children-sleep v ∙ (system.children-poll_false pid w v e ∙ k))

  timed_out-Waited :
      (others : List ℕ) (pid : ℕ) (h : ProcessHandles) (w : World)
      → HoldsPid others pid h w
      → Waited others (timed_out system h w)
  unfolding timed_out
  timed_out-Waited others pid h w (e, k) = inl (pid, e, k)

  choose_Waited :
      (others : List ℕ) (b : Bool) (r q : Bool × ProcessHandles × World)
      → Waited others r
      → Waited others q
      → Waited others (if b then r else q)
  choose_Waited others true r q h k = h
  choose_Waited others false r q h k = k

  ready_loop-Waited :
      (rounds : ℕ) (others : List ℕ) (pid : ℕ) (h : ProcessHandles) (w : World)
      → HoldsPid others pid h w
      → Waited others (ready_loop system rounds pid h w)
  unfolding ready_loop Further
  ready_loop-Waited zero others pid h w k = timed_out-Waited others pid h w k
  ready_loop-Waited (suc rounds) others pid h w k =
      let (got, h', v) = read_output system h w h.pipe_read_fd in
      let k' = read_output-HoldsPid others pid h w h.pipe_read_fd k in
      let held : Waited others (true, h', v) = (pid, k'.0, k'.1) in
      choose_Waited others (system.expired w) _ _ (timed_out-Waited others pid h w k) (
        choose_Waited others _ (true, h', v) _ held
          (polled-Waited (ready_loop system rounds pid) others pid
            (ready_loop-Waited rounds others pid) h' v (poll pid v) refl k'))

  waited_on : ℕ → ProcessHandles → World → Option ℕ → Bool × ProcessHandles × World
  waited_on rounds h w o = elim o [
    | none ↦ (false, h, w)
    | some pid ↦ ready_loop system rounds pid h w
  ]

  pub wait_for_server_ready-Waited :
      (others : List ℕ) (h : ProcessHandles) (timeout_ms : ℕ) (w : World)
      → Holds others h w
      → Waited others (wait_for_server_ready system h timeout_ms w)
  unfolding wait_for_server_ready waited_on
  wait_for_server_ready-Waited others h timeout_ms w (pid, e, k) =
      subst (λ o. Waited others (waited_on (timeout_ms / 50 + 1) h w o)) (sym e)
        (ready_loop-Waited (timeout_ms / 50 + 1) others pid h w (e, k))
