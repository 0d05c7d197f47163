-- ===== src/History/Refresh/Frame.antt =====
-- history.rs, `refresh_owned` touches the history alone.
use clix.Types.{
  Job, bodies_eq, bool_eq, job_eq, patterns_eq, schedule_eq, status_eq, time_eq, weekday_eq,
}
use clix.Error.{>>=-eq-ok, Result, ok}
use clix.Prelude.{
  Bool-cases, List, Map, Option, Text, [], arith, get, inl, inr, int_eq, nat_eq, none, not, retain,
  some, text_eq, texts_eq, true, ℕ, ◌!=◌, ◌&&◌, ◌∷◌, ◌≡◌,
}
use clix.State.{Host, Store}
use clix.State.Frame.{Kept, Kept-refl, Kept-trans, ok-Kept}
use clix.History.{
  Entry, History, OutputRef, captured_output_eq, certificate_eq, output_ref_eq, role_eq,
  signed_fact_eq,
}
use clix.History.Keys.{matches_job, next_change}
use clix.History.Refresh.{
  Voice, admit, is_changed, is_settled, mark_legacy, old_jobs, outputs, publish, refresh_job,
  refresh_jobs, refresh_owned, renew_trust, speak, speak_entry, speak_voice, start_epoch, voice,
}

module _ (h : Host) where
  next_change-Kept :
      (s : Store) (n : ℕ) (history : History)
      → next_change s.history ≡ ok (n, history)
      → Kept s (record s { history = history })
  unfolding next_change
  next_change-Kept s n history e = ground arith

  admit-Kept :
      (old : Map Job) (s : Store) (job : Job) (key : Text) (s' : Store)
      → admit h old s job ≡ ok (key, s')
      → Kept s s'
  unfolding admit
  admit-Kept old s job key s' e = ground arith

  publish-Kept :
      (s : Store) (job : Job) (key : Text) (entry : Entry) (v : Voice) (out err' : OutputRef)
      (s' : Store)
      → publish h s job key entry v out err' ≡ ok s'
      → Kept s s'
  unfolding publish
  publish-Kept s job key entry v out err' s' e = ground arith

  speak-Kept :
      (s : Store) (job : Job) (key : Text) (entry : Entry) (v : Voice) (s' : Store)
      → speak h s job key entry v ≡ ok s'
      → Kept s s'
  unfolding speak
  speak-Kept s job key entry v s' e =
      let (o, _, rest) = >>=-eq-ok (outputs h s job v) _ e in
      elim (Bool-cases (is_settled v.previous v.status o.0 o.1)) [
        | inl t ↦ ok-Kept s s' (rw t at rest)
        | inr t ↦ publish-Kept s job key entry v o.0 o.1 s' (rw t at rest)
      ]

  speak_voice-Kept :
      (s : Store) (job : Job) (key : Text) (entry : Entry) (v : Option Voice) (s' : Store)
      → speak_voice h s job key entry v ≡ ok s'
      → Kept s s'
  unfolding speak_voice
  speak_voice-Kept s job key entry none s' e = ok-Kept s s' e
  speak_voice-Kept s job key entry (some v) s' e = speak-Kept s job key entry v s' e

  speak_entry-Kept :
      (s : Store) (job : Job) (key : Text) (found : Option Entry) (s' : Store)
      → speak_entry h s job key found ≡ ok s'
      → Kept s s'
  unfolding speak_entry
  speak_entry-Kept s job key none s' e = cc
  speak_entry-Kept s job key (some entry) s' e =
      elim (Bool-cases (matches_job entry.record_of.certificate job)) [
        | inl t ↦
            speak_voice-Kept s job key entry (voice s.body_name entry.record_of job) s' (rw t at e)
        | inr t ↦ absurd (cc (rw t at e))
      ]

  refresh_job-Kept :
      (old : Map Job) (s : Store) (job : Job) (s' : Store)
      → refresh_job h old s job ≡ ok s'
      → Kept s s'
  unfolding refresh_job
  refresh_job-Kept old s job s' e =
      elim (Bool-cases (job.from != s.body_name && job.body != s.body_name)) [
        | inl t ↦ ok-Kept s s' (rw t at e)
        | inr t ↦
            let (p, first, rest) = >>=-eq-ok (admit h old s job) _ (rw t at e) in
            Kept-trans (admit-Kept old s job p.0 p.1 first)
              (speak_entry-Kept p.1 job p.0 (get p.0 p.1.history.entries) s' rest)
      ]

  refresh_jobs-Kept :
      (old : Map Job) (s : Store) (jobs : List Job) (s' : Store)
      → refresh_jobs h old s jobs ≡ ok s'
      → Kept s s'
  unfolding refresh_jobs
  refresh_jobs-Kept old s [] s' e = ground (arith, Kept-refl s)
  refresh_jobs-Kept old s (j ∷ js) s' e =
      let (t, step, rest) = >>=-eq-ok (refresh_job h old s j) _ e in
      Kept-trans (refresh_job-Kept old s j t step) (refresh_jobs-Kept old t js s' rest)

  start_epoch-Kept :
      (random : Result Text) (s s' : Store) → start_epoch random (mark_legacy s) ≡ ok s' → Kept s s'
  unfolding start_epoch mark_legacy
  start_epoch-Kept random s s' e = ground arith

  renew_trust-Kept : (s : Store) → Kept s (renew_trust h s)
  unfolding renew_trust
  renew_trust-Kept s = ground arith

  initialized-Kept :
      (s s' : Store)
      → ok (record s { history = record s.history { initialized = true } }) ≡ ok s'
      → Kept s s'
  initialized-Kept s s' e = ground arith

  -- The publication of facts that succeeds keeps every job with its status, and every grant,
  -- request, receipt and peer.
  pub refresh_owned-Kept :
      (random : Result Text) (previous : Option Store) (s s' : Store)
      → refresh_owned h random previous s ≡ ok s'
      → Kept s s'
  unfolding refresh_owned
  refresh_owned-Kept random previous s s' e =
      let (s₁, epoch, rest) = >>=-eq-ok (start_epoch random (mark_legacy s)) _ e in
      let s₂ = renew_trust h s₁ in
      let js = retain (is_changed (not s.history.initialized) (old_jobs previous)) s₂.jobs in
      let (s₃, jobs, final) = >>=-eq-ok (refresh_jobs h (old_jobs previous) s₂ js) _ rest in
      Kept-trans (start_epoch-Kept random s s₁ epoch) (
        Kept-trans (renew_trust-Kept s₁) (
          Kept-trans (refresh_jobs-Kept (old_jobs previous) s₂ js s₃ jobs)
            (initialized-Kept s₃ s' final)))
