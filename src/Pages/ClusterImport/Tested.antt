-- ===== src/Pages/ClusterImport/Tested.antt =====
-- frontend/src/pages/clusters/import.tsx: which kubeconfigs are imported.
use k8s_platform.Common.{
  ℕ, String, ◌≡◌, ◌⊎◌, refl, ap, sym, ◌∙◌, Bool, true, false, Option, none, some, List, [], ◌∷◌,
  arith, inl, inr,
}
use k8s_platform.Api.Cluster.{Mutation}
use k8s_platform.Pages.{Act, sent, success, go, if_ok}
use k8s_platform.Pages.ClusterImport.{
  text_mode, ImportState, initial_state, ImportFormValues, Event, edit_text, set_mode, upload,
  remove_file, test_connection, answered, connected, failed, succeeded, extract_from,
  extract_kubeconfig, start_test, step, submit_with, handle_submit, import_body,
}

-- What the server was asked and has confirmed: the kubeconfig of the running test, and the one whose
-- test was the last to succeed.
pub record Seen : Type 0 where
  pub pending : Option String
  pub passed : Option String

module _ (trim lower : String → String) (ends_with : String → String → Bool)
    (digits : ℕ → String) where
  abbrev pub watch : ImportState → Seen → Event → Seen
  watch s seen (test_connection true) = record seen {
    pending = extract_kubeconfig trim lower ends_with digits s;
  }
  watch s seen (answered (connected res)) = record { pending = none; passed = seen.pending }
  watch s seen _ = seen

  -- The text is pasted, not uploaded, and while a test runs nothing else happens.
  abbrev pub Calm : ImportState → Event → Type 0
  Calm s (edit_text text) = s.ping_loading ≡ false
  Calm s (test_connection valid) = s.ping_loading ≡ false
  Calm s (answered a) = s.ping_loading ≡ true
  Calm s _ = ⊥

  abbrev pub CalmHistory : ImportState → List Event → Type 0
  CalmHistory s [] = Unit
  CalmHistory s (e ∷ es) = Calm s e × CalmHistory (step trim lower ends_with digits s e).0 es

  abbrev pub after : ImportState → List Event → ImportState
  after s [] = s
  after s (e ∷ es) = after (step trim lower ends_with digits s e).0 es

  abbrev pub watched : ImportState → Seen → List Event → Seen
  watched s seen [] = seen
  watched s seen (e ∷ es) = watched (step trim lower ends_with digits s e).0 (watch s seen e) es

  abbrev text_of_field : ImportState → Option String
  text_of_field s = extract_from trim lower ends_with digits text_mode s.kubeconfig s.file_content

  pub record IsTested (s : ImportState) (seen : Seen) : Type 0 where
    pub pasted : s.mode ≡ text_mode
    pub running : s.ping_loading ≡ true → seen.pending ≡ text_of_field s
    pub confirmed : succeeded s.ping_result ≡ true → seen.passed ≡ text_of_field s

  in_text_mode :
      (s : ImportState)
      → s.mode ≡ text_mode
      → extract_kubeconfig trim lower ends_with digits s ≡ text_of_field s
  in_text_mode s e =
      ap (λ m. extract_from trim lower ends_with digits m s.kubeconfig s.file_content) e

  start_test-IsTested :
      (s : ImportState) (seen : Seen) (o : Option String)
      → s.ping_loading ≡ false
      → o ≡ text_of_field s
      → IsTested s seen
      → IsTested (start_test trim lower ends_with digits s o).0 (record seen { pending = o })
  start_test-IsTested s seen none idle e h = record {
    pasted = h.pasted;
    running = λ r. e;
    confirmed = h.confirmed;
  }
  start_test-IsTested s seen (some kc) idle e h = record {
    pasted = h.pasted;
    running = λ r. e;
    confirmed = λ c. cc;
  }

  step-IsTested :
      (s : ImportState) (seen : Seen) (e : Event)
      → Calm s e
      → IsTested s seen
      → IsTested (step trim lower ends_with digits s e).0 (watch s seen e)
  unfolding step
  step-IsTested s seen (edit_text text) calm h = record {
    pasted = h.pasted;
    running = λ r. absurd (ground arith);
    confirmed = λ c. cc;
  }
  step-IsTested s seen (set_mode mode) calm h = absurd calm
  step-IsTested s seen (upload name content) calm h = absurd calm
  step-IsTested s seen remove_file calm h = absurd calm
  step-IsTested s seen (answered (connected res)) calm h = record {
    pasted = h.pasted;
    running = λ r. cc;
    confirmed = λ c. h.running calm;
  }
  step-IsTested s seen (answered (failed err)) calm h = record {
    pasted = h.pasted;
    running = λ r. cc;
    confirmed = λ c. cc;
  }
  step-IsTested s seen (test_connection false) calm h = record {
    pasted = h.pasted;
    running = λ r. cc;
    confirmed = λ c. cc;
  }
  step-IsTested s seen (test_connection true) calm h =
      start_test-IsTested s seen (extract_kubeconfig trim lower ends_with digits s) calm
        (in_text_mode s h.pasted) h

  after-IsTested :
      (s : ImportState) (seen : Seen) (es : List Event)
      → CalmHistory s es
      → IsTested s seen
      → IsTested (after s es) (watched s seen es)
  after-IsTested s seen [] calm h = h
  after-IsTested s seen (e ∷ es) calm h =
      after-IsTested (step trim lower ends_with digits s e).0 (watch s seen e) es calm.1
        (step-IsTested s seen e calm.0 h)

  sent-if_ok :
      (ok : Bool)
      → sent {R = Mutation} (if_ok ok (success "集群导入成功" ∷ go "/clusters/list" ∷ [])) ≡ []
  sent-if_ok true = refl
  sent-if_ok false = refl

  -- What is imported, if anything, was confirmed.
  abbrev pub ImportsOnly : ImportFormValues → Option String → List (Act Mutation) → Type 0
  ImportsOnly values passed acts =
      (sent acts ≡ [])
      ⊎ ((kc : String) × (passed ≡ some kc)
          × (sent acts ≡ import_body trim lower ends_with digits values kc ∷ []))

  submit_with-ImportsOnly :
      (values : ImportFormValues) (ok tested : Bool) (o passed : Option String)
      → (tested ≡ true → passed ≡ o)
      → ImportsOnly values passed (submit_with trim lower ends_with digits values ok tested o)
  submit_with-ImportsOnly values ok tested none passed h = inl refl
  submit_with-ImportsOnly values ok true (some kc) passed h =
      inr (kc, h refl, ap (◌∷◌ (import_body trim lower ends_with digits values kc)) (sent-if_ok ok))
  submit_with-ImportsOnly values ok false (some kc) passed h = inl refl

  -- Where the kubeconfig is pasted and nothing happens while a test runs, a submission imports nothing
  -- but the kubeconfig whose connection test was the last to succeed.
  pub handle_submit-ImportsOnly :
      (es : List Event) (values : ImportFormValues) (ok : Bool)
      → CalmHistory initial_state es
      → ImportsOnly values
          (watched initial_state (record { pending = none; passed = none }) es).passed
          (handle_submit trim lower ends_with digits (after initial_state es) values ok)
  unfolding handle_submit
  handle_submit-ImportsOnly es values ok calm =
      let at_end =
        after-IsTested initial_state (record { pending = none; passed = none }) es calm
          (record { pasted = refl; running = λ r. cc; confirmed = λ c. cc }) in
      let end = after initial_state es in
      submit_with-ImportsOnly values ok (succeeded end.ping_result)
        (extract_kubeconfig trim lower ends_with digits end) _
        (λ c. at_end.confirmed c ∙ sym (in_text_mode end at_end.pasted))
