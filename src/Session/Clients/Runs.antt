-- ===== src/Session/Clients/Runs.antt =====
-- In every run of the event loop the clients are made in turn and used only afterwards.
use speech_to_speech_k8s.Base.{
  ℕ, refl, ◌≡◌, ◌∙◌, inl, inr, Bool, true, false, Option, none, some, List, [], ◌∷◌, Bool-cases,
  Num, Text,
}
use speech_to_speech_k8s.Connection.{Form, missing_server_url}
use speech_to_speech_k8s.Connection.Url.{UrlApi}
use speech_to_speech_k8s.View.{is_connecting}
use speech_to_speech_k8s.Session.{
  Session, prompt_url, refresh_account, nothing, ends, starts, Task, priming, connecting_client,
  closing, beating,
}
use speech_to_speech_k8s.Session.Timers.{stop_countdown}
use speech_to_speech_k8s.Session.Teardown.{end_tracked_session, release_claims, release_devices}
use speech_to_speech_k8s.Session.Events.{
  Answer, prime_answer, connect_answer, close_answer, beat_answer, Event, tap, restart, mute, stop,
  leave, join_now, pagehide, replay, queue_moved, ready_to_join, status, client_failed,
  session_granted, mic_acquired, beat_due, second_over, resume, on_mute, config_fetched, on_config,
}
use speech_to_speech_k8s.Session.Start.{acquire_mic_stream}
use speech_to_speech_k8s.Session.Step.{
  task_at, without, fits, can_start, on_tap, save_form, restart_with, on_restart, continue, step,
  run,
}
use speech_to_speech_k8s.Session.Clients.Ends.{
  client-release_claims, client-stop_countdown, stop_countdown-Holds, end_tracked_session-Holds,
  end_queue_ticket-Holds, release_claims-Holds, release_devices-Holds, finish-Holds, teardown-Holds,
  on_limit_reached-Holds, on_fatal_error-Holds,
}
use speech_to_speech_k8s.Session.Clients.{
  Clients, closes, is_job, jobs-append, jobs-without, IsSteady, IsUndialled, IsClosed, Holds,
}
use speech_to_speech_k8s.Session.Clients.Turns.{
  sync_mic_mute_state-Holds, do_start-Holds, primed-Holds, refused-Holds, connected-Holds,
  on_client_status-Holds, on_queue-Holds, on_ready_to_join-Holds, on_session-Holds,
  toggle_mute-Holds, tell_join-Holds, on_beat-Holds, on_second-Holds,
}

-- The events that neither start a call nor end a wait.
abbrev pub listens : Event → Bool
listens (tap _) = false
listens (restart _ _) = false
listens (resume _ _) = false
listens _ = true

-- The wait for the microphone's permission ends well: a client is made.
abbrev pub dials : Option Task → Answer → Bool
dials (some (priming _ _ _)) (prime_answer none) = true
dials _ _ = false

abbrev pub waits_for_job : Option Task → Bool
waits_for_job none = false
waits_for_job (some t) = is_job t

module _ {P : Clients → Type 0} (api : UrlApi) (number : Text → Num) (truncate : Text → Text) where
  module _ (kept : IsSteady P) where
    pub listen-Holds :
        (e : Event) (s : Session)
        → listens e ≡ true
        → Holds P s
        → Holds P (step api number truncate s e)
    unfolding step on_config on_mute acquire_mic_stream
    listen-Holds (tap audio) s h v = absurd cc
    listen-Holds (restart audio f) s h v = absurd cc
    listen-Holds (resume n a) s h v = absurd cc
    listen-Holds mute s h v = toggle_mute-Holds kept s.mic_stream s.client s v
    listen-Holds stop s h v = teardown-Holds kept truncate nothing s v
    listen-Holds leave s h v = teardown-Holds kept truncate nothing s v
    listen-Holds join_now s h v =
        tell_join-Holds kept s.client (stop_countdown s) (client-stop_countdown s)
          (stop_countdown-Holds kept s v)
    listen-Holds pagehide s h v =
        end_queue_ticket-Holds kept (end_tracked_session s) (end_tracked_session-Holds kept s v)
    listen-Holds (replay playing) s h v =
        sync_mic_mute_state-Holds kept (record s { replaying = playing }) _ v
    listen-Holds (config_fetched f) s h v = kept.other refresh_account refl v
    listen-Holds (queue_moved n ticket) s h v = on_queue-Holds kept n ticket s v
    listen-Holds (ready_to_join info sec) s h v = on_ready_to_join-Holds kept info sec s v
    listen-Holds (status st) s h v = on_client_status-Holds kept st s v
    listen-Holds (client_failed message) s h v = on_fatal_error-Holds kept truncate message s v
    listen-Holds (session_granted i) s h v = on_session-Holds kept i s v
    listen-Holds (mic_acquired tracks) s h v = v
    listen-Holds beat_due s h v = on_beat-Holds kept s.beats s v
    listen-Holds second_over s h v = on_second-Holds kept s.countdowns s v

    -- Behind a wait that neither starts a call nor ends one.
    pub continue_other-Holds :
        (t : Option Task) (a : Answer) (s : Session)
        → waits_for_job t ≡ false
        → Holds P s
        → Holds P (continue api number truncate t a s)
    unfolding continue
    continue_other-Holds (some (priming g t audio)) a s h v = absurd cc
    continue_other-Holds (some (closing k)) a s h v = absurd cc
    continue_other-Holds (some (connecting_client c audio)) (connect_answer e) s h v =
        connected-Holds api truncate kept e audio s v
    continue_other-Holds (some (beating id)) (beat_answer (some true)) s h v =
        on_limit_reached-Holds kept truncate s v
    continue_other-Holds _ _ s h v = v

    pub restart_held-Holds :
        (c : ℕ) (audio : Bool) (s : Session)
        → s.client ≡ some c
        → Holds P s
        → Holds P (restart_with api number truncate (some c) audio s)
    restart_held-Holds c audio s m v =
        rw (jobs-append (release_claims s).pending (closing (starts audio)))
          (kept.told (closes c) (client-release_claims s ∙ m) (release_claims-Holds kept s v))

    pub resume-Holds :
        (n : ℕ) (a : Answer) (s : Session)
        → (Holds P (record s { pending = without n s.pending })
            → Holds P (
                continue api number truncate
                  (task_at n s.pending)
                  a
                  (record s { pending = without n s.pending })))
        → Holds P s
        → Holds P (step api number truncate s (resume n a))
    unfolding step
    resume-Holds n a s behind v = elim (Bool-cases (fits (task_at n s.pending) a)) [
      | inl e ↦ rw e (behind (kept.fewer _ (jobs-without n s.pending) v))
      | inr e ↦ rw e v
    ]

    -- A restart, if what it does with the form saved is known.
    pub on_restart-Holds :
        (audio : Bool) (f : Form) (s : Session)
        → (Holds P (save_form api number truncate f s)
            → Holds P (
                restart_with api number truncate s.client audio
                  (save_form api number truncate f s)))
        → Holds P s
        → Holds P (on_restart api number truncate audio f s)
    unfolding on_restart
    on_restart-Holds audio f s with_form v =
        let s' = save_form api number truncate f s in
        elim (Bool-cases (is_connecting s.state)) [
          | inl e ↦ rw e v
          | inr e ↦ elim (Bool-cases (missing_server_url api s'.config s'.settings)) [
            | inl m ↦ rw (e, m) (kept.other prompt_url refl v)
            | inr m ↦ rw (e, m) (with_form v)
          ]
        ]

  module _ (kept : IsUndialled P) where
    pub on_tap-Holds :
        (audio : Bool) (s : Session) → Holds P s → Holds P (on_tap api number truncate audio s)
    unfolding on_tap
    on_tap-Holds audio s v = elim (Bool-cases (can_start s.state)) [
      | inl e ↦ elim (Bool-cases (missing_server_url api s.config s.settings)) [
        | inl m ↦ rw (e, m) (kept.steady.other prompt_url refl v)
        | inr m ↦ rw (e, m) (do_start-Holds api truncate kept audio s v)
      ]
      | inr e ↦ rw e v
    ]

    pub restart_with-Holds :
        (c : Option ℕ) (audio : Bool) (s : Session)
        → s.client ≡ c
        → Holds P s
        → Holds P (restart_with api number truncate c audio s)
    restart_with-Holds none audio s m v = do_start-Holds api truncate kept audio s v
    restart_with-Holds (some c) audio s m v = restart_held-Holds kept.steady c audio s m v

    -- Behind a wait, but where a client is made.
    pub continue_undialled-Holds :
        (t : Option Task) (a : Answer) (s : Session)
        → dials t a ≡ false
        → Holds P s
        → Holds P (continue api number truncate t a s)
    unfolding continue
    continue_undialled-Holds (some (priming g t audio)) (prime_answer none) s h v = absurd cc
    continue_undialled-Holds (some (priming g t audio)) (prime_answer (some e)) s h v =
        refused-Holds api truncate kept.steady e g t audio s v
    continue_undialled-Holds (some (closing (ends k))) close_answer s h v =
        finish-Holds kept.steady truncate k (release_devices s) (release_devices-Holds kept s v)
    continue_undialled-Holds (some (closing (starts audio))) close_answer s h v =
        do_start-Holds api truncate kept audio (release_devices s) (release_devices-Holds kept s v)
    continue_undialled-Holds (some (connecting_client c audio)) a s h v =
        continue_other-Holds kept.steady (some (connecting_client c audio)) a s refl v
    continue_undialled-Holds (some (beating id)) a s h v =
        continue_other-Holds kept.steady (some (beating id)) a s refl v
    continue_undialled-Holds _ _ s h v = v

  module _ (kept : IsClosed P) where
    continue-Holds :
        (t : Option Task) (a : Answer) (s : Session)
        → Holds P s
        → Holds P (continue api number truncate t a s)
    unfolding continue
    continue-Holds (some (priming g t audio)) (prime_answer none) s v =
        primed-Holds api truncate kept none g t audio s v
    continue-Holds (some (priming g t audio)) (prime_answer (some e)) s v =
        primed-Holds api truncate kept (some e) g t audio s v
    continue-Holds (some (priming g t audio)) _ s v = v
    continue-Holds t a s v = continue_undialled-Holds kept.undialled t a s refl v

    step-Holds : (e : Event) (s : Session) → Holds P s → Holds P (step api number truncate s e)
    unfolding step
    step-Holds (tap audio) s v = on_tap-Holds kept.undialled audio s v
    step-Holds (restart audio f) s v =
        on_restart-Holds kept.undialled.steady audio f s
          (λ w.
            restart_with-Holds kept.undialled s.client audio (save_form api number truncate f s)
              refl w)
          v
    step-Holds (resume n a) s v =
        resume-Holds kept.undialled.steady n a s (λ w. continue-Holds _ a _ w) v
    step-Holds e s v = listen-Holds kept.undialled.steady e s refl v

    pub run_from-Holds :
        (es : List Event) (s : Session) → Holds P s → Holds P (run api number truncate s es)
    unfolding run
    run_from-Holds [] s v = v
    run_from-Holds (e ∷ es) s v =
        run_from-Holds es (step api number truncate s e) (step-Holds e s v)
