-- ===== src/Runner/Serving/Released.antt =====
-- TestRunner/ControlServer.cpp, `HandleClient`: the processes that it leaves.
use my_iperf.Prelude.{
  ℕ, ◌≡◌, ◌≢◌, refl, Text, Bool, true, false, Option, none, some, List, [], ◌∷◌, All, ◌⊎◌, inl, inr,
  is_empty, if◌then◌else◌,
}
use my_iperf.Result.{Result, ok, throw}
use my_iperf.Json.{JsonLib}
use my_iperf.Stats.{Floats}
use my_iperf.StatsJson.{TextLib}
use my_iperf.Runner.{
  MessageType, TestConfig, TestResult, ConfigRequestMessage, ResultsRequestMessage,
}
use my_iperf.Runner.Messages.{LongLib, get_message_type}
use my_iperf.Runner.Processes.{System, ProcessHandles, launch_ipeftc_server}
use my_iperf.Runner.Processes.Children.{
  Holds, Launched, Waited, launch-Launched, wait_for_server_ready-Waited, terminate_process-Owns,
  capture_output-Holds,
}
use my_iperf.Runner.Serving.{
  Reports, SessionRecord, Outcome, goes_on, leaves, State, send, answer_ready, answer_launch,
  handle_config, answer_results, answer_parsed, answer_ended, end_process, handle_results,
  handle_type, server_start_timeout_ms, then_on, serve, clean_up, accepted, handle_client,
}

module _ {f : Floats} {lib : JsonLib} {texts : TextLib f lib} (longs : LongLib texts)
    (system : System) (reports : Reports system f.Real) where
  open system use {World, children}

  abbrev S : Type 0
  S = State longs system reports

  -- No two requests for a test come from one client.
  abbrev NoConfig : List Text → Type 0
  NoConfig messages = All (λ t. get_message_type longs t ≢ ok MessageType.config_request) messages

  unfoldable pub AtMostOne : List Text → Type 0
  AtMostOne [] = Unit
  AtMostOne (t ∷ messages) =
      AtMostOne messages
      × (get_message_type longs t ≡ ok MessageType.config_request → NoConfig messages)

  module _ (others : List ℕ) where
    -- The server has no process, or the one that it holds.
    abbrev Idle : S → Type 0
    Idle s = (s.ipeftc_running ≡ false) × (children s.world ≡ others)

    abbrev Busy : S → Type 0
    Busy s = (s.ipeftc_running ≡ true) × Holds system others s.ipeftc_process s.world

    abbrev Inv : S → Type 0
    Inv s = Idle s ⊎ Busy s

    abbrev After : Outcome S → Type 0
    After (goes_on s) = Inv s
    After (leaves s) = Inv s

    -- The same, where the loop goes on only without a process.
    abbrev Ends : Outcome S → Type 0
    Ends (goes_on s) = Idle s
    Ends (leaves s) = Inv s

    -- The same, where the loop goes on with these messages.
    abbrev Fits : List Text → Outcome S → Type 0
    Fits messages (goes_on s) = Inv s × (Idle s ⊎ NoConfig messages)
    Fits messages (leaves s) = Inv s

    answer_ready-After :
        (c : TestConfig) (s : S) (r : Bool × ProcessHandles × World)
        → s.ipeftc_running ≡ true
        → Waited system others r
        → After (answer_ready longs system reports c s r)
    unfolding answer_ready send
    answer_ready-After c s (true, h, w) b k = inr (b, k)
    answer_ready-After c s (false, h, w) b k =
        inl (refl, terminate_process-Owns system others h w k)

    answer_launch-After :
        (c : TestConfig) (s : S) (r : Bool × ProcessHandles × World)
        → s.ipeftc_running ≡ false
        → Launched system others r
        → After (answer_launch longs system reports c s r)
    unfolding answer_launch send
    answer_launch-After c s (true, h, w) b k =
        let s' : S = record s { ipeftc_running = true; current_test_port = c.port } in
        answer_ready-After c s' _ refl
          (wait_for_server_ready-Waited system others h server_start_timeout_ms w k)
    answer_launch-After c s (false, h, w) b k = inl (b, k)

    handle_config-After :
        (s : S) (r : Result ConfigRequestMessage)
        → Idle s
        → After (handle_config longs system reports s r)
    unfolding handle_config launch_ipeftc_server
    handle_config-After s (throw what) i = inl i
    handle_config-After s (ok req) i =
        answer_launch-After req.config (record s { current_config = req.config }) _ i.0
          (launch-Launched system others _ _ s.ipeftc_process s.world i.1)

    answer_parsed-Ends :
        (req : ResultsRequestMessage f.Real) (s : S) (r : Result (TestResult f.Real))
        → Idle s
        → Ends (answer_parsed longs system reports req s r)
    unfolding answer_parsed answer_results send
    answer_parsed-Ends req s (throw what) i = inl i
    answer_parsed-Ends req s (ok result) i = inl i

    answer_ended-Ends :
        (req : ResultsRequestMessage f.Real) (s : S) (output : Text)
        (o : Option (TestResult f.Real))
        → Idle s
        → Ends (answer_ended longs system reports req s output o)
    unfolding answer_ended answer_results send
    answer_ended-Ends req s output none i = answer_parsed-Ends req s _ i
    answer_ended-Ends req s output (some result) i = inl i

    handle_results-Ends :
        (s : S) (r : Result (ResultsRequestMessage f.Real))
        → Inv s
        → Ends (handle_results longs system reports s r)
    unfolding handle_results end_process answer_results send
    handle_results-Ends s (throw what) i = i
    handle_results-Ends s (ok req) (inl i) = rw i.0 (inl (refl, i.1))
    handle_results-Ends s (ok req) (inr (b, k)) = rw b (
        answer_ended-Ends req (end_process longs system reports s).1 _ _
          (refl, capture_output-Holds system others s.ipeftc_process s.world k))

    After-Fits :
        (messages : List Text) (o : Outcome S) → NoConfig messages → After o → Fits messages o
    After-Fits messages (goes_on s) n i = (i, inr n)
    After-Fits messages (leaves s) n i = i

    Ends-Fits : (messages : List Text) (o : Outcome S) → Ends o → Fits messages o
    Ends-Fits messages (goes_on s) i = (inl i, inl i)
    Ends-Fits messages (leaves s) i = i

    handle_type-Fits :
        (messages : List Text) (s : S) (message : Text) (r : Result MessageType)
        → Inv s
        → (r ≡ ok MessageType.config_request → Idle s × NoConfig messages)
        → Idle s ⊎ NoConfig messages
        → Fits messages (handle_type longs system reports s message r)
    unfolding handle_type
    handle_type-Fits messages s message (throw what) i c d = i
    handle_type-Fits messages s message (ok MessageType.config_request) i c d =
        After-Fits messages _ (c refl).1 (handle_config-After s _ (c refl).0)
    handle_type-Fits messages s message (ok MessageType.results_request) i c d =
        Ends-Fits messages _ (handle_results-Ends s _ i)
    handle_type-Fits messages s message (ok MessageType.server_shutdown) i c d = i
    handle_type-Fits messages s message (ok MessageType.server_ready) i c d = (i, d)
    handle_type-Fits messages s message (ok MessageType.test_complete) i c d = (i, d)
    handle_type-Fits messages s message (ok MessageType.results_response) i c d = (i, d)
    handle_type-Fits messages s message (ok MessageType.error_message) i c d = (i, d)
    handle_type-Fits messages s message (ok MessageType.heartbeat) i c d = (i, d)

    then_on-Inv :
        (messages : List Text) (further : S → S) (o : Outcome S)
        → Fits messages o
        → ((s : S) → Inv s → Idle s ⊎ NoConfig messages → Inv (further s))
        → Inv (then_on longs system reports further o)
    unfolding then_on
    then_on-Inv messages further (goes_on s) k go = go s k.0 k.1
    then_on-Inv messages further (leaves s) k go = k

    choose-Inv : (b : Bool) (s t : S) → Inv s → Inv t → Inv (if b then s else t)
    choose-Inv true s t i j = i
    choose-Inv false s t i j = j

    -- A request for a test finds the server without a process.
    first_request :
        (t : Text) (messages : List Text) (s : S)
        → AtMostOne (t ∷ messages)
        → Idle s ⊎ NoConfig (t ∷ messages)
        → get_message_type longs t ≡ ok MessageType.config_request
        → Idle s × NoConfig messages
    unfolding AtMostOne
    first_request t messages s m (inl i) e = (i, m.1 e)
    first_request t messages s m (inr n) e = absurd (n.0 e)

    still_fits :
        (t : Text) (messages : List Text) (s : S)
        → Idle s ⊎ NoConfig (t ∷ messages)
        → Idle s ⊎ NoConfig messages
    still_fits t messages s (inl i) = inl i
    still_fits t messages s (inr n) = inr n.1

    serve-Inv :
        (messages : List Text) (s : S)
        → Inv s
        → AtMostOne messages
        → Idle s ⊎ NoConfig messages
        → Inv (serve longs system reports s messages)
    unfolding serve AtMostOne
    serve-Inv [] s i m d = i
    serve-Inv (t ∷ messages) s i m d = choose-Inv (is_empty t) s _ i (
        then_on-Inv messages (λ s'. serve longs system reports s' messages) _
          (handle_type-Fits messages s t _ i (first_request t messages s m d)
            (still_fits t messages s d))
          (λ s' i' d'. serve-Inv messages s' i' m.0 d'))

    clean_up-children : (s : S) → Inv s → children (clean_up longs system reports s).world ≡ others
    unfolding clean_up
    clean_up-children s (inl (b, k)) = rw b k
    clean_up-children s (inr (b, k)) =
        rw b (terminate_process-Owns system others s.ipeftc_process s.world (inl k))

  -- When the server has handled a client, whatever this sent and whatever failed, it has no more and no
  -- fewer child processes than before: every process that it started for the client has ended and was
  -- waited for. The condition is that at most one of the messages is a request for a test.
  pub handle_client-children :
      (w : World) (history : List (SessionRecord f.Real)) (messages : List Text)
      → AtMostOne messages
      → children (handle_client longs system reports w history messages).world ≡ children w
  unfolding handle_client accepted
  handle_client-children w history messages m =
      clean_up-children (children w) _
        (serve-Inv (children w) messages _ (inl (refl, refl)) m (inl (refl, refl)))
