-- ===== src/Audit/SinkLaws.antt =====
-- What the copies outside the log promise: objects stay, and an entry that needs its copies has them.
use instant_grant_core.Prelude.{
  ℕ, Bool, true, false, Option, none, some, List, [], ◌∷◌, Text, text_eq, text_eq_sound, All, ◌≡◌,
  refl, ap, inl, inr, Bool-cases,
}
use instant_grant_core.Audit.Canonical.{Platform}
use instant_grant_core.Audit.Entry.{SinkKind, r2_entry, r2_stream, AuditImmutableSink, AuditEvent}
use instant_grant_core.Audit.Services.{
  Services, if_absent, PutAnswer, stored, refused, put_failed, Fetched, found, missing, get_failed,
  IngestAnswer, answered, not_answered,
}
use instant_grant_core.Audit.Sinks.{
  after_put, same_object, after_stream_copy, after_entry_copy, after_index, accepted, Written,
  sinks_of, failed, put_if_absent_or_verify, entry_key, stream_key, write_r2_immutable_copies,
  write_kv_index, write_immutable_webhook,
}

-- Whether a sink names an object of the bucket.
abbrev pub is_copy : SinkKind → Bool
is_copy r2_entry = true
is_copy r2_stream = true
is_copy _ = false

abbrev pub is_in_bucket : AuditImmutableSink → Bool
is_in_bucket s = is_copy s.sink

module _ (platform : Platform) (services : Services) where
  open services use {
    World, bucket_put, bucket_get, kv_put, ingest, bucket_put-stored, bucket_put-other,
    bucket_put-present, kv_put-kept, ingest-kept,
  }

  -- Every object that is in the bucket stays as it is.
  abbrev pub Keeps : World → World → Type 0
  Keeps w w' = (j q : Text) → bucket_get j w ≡ found q → bucket_get j w' ≡ found q

  pub Keeps-trans : (w w' w'' : World) → Keeps w w' → Keeps w' w'' → Keeps w w''
  Keeps-trans w w' w'' first second j q there = second j q (first j q there)

  after_put-world :
      (k p : Text) (r : World × PutAnswer) → (after_put platform services k p r).0 ≡ r.0
  after_put-world k p (w, stored) = refl
  after_put-world k p (w, refused) = refl
  after_put-world k p (w, put_failed message) = refl

  put-Keeps : (k p : Text) (w : World) → Keeps w (put_if_absent_or_verify platform services k p w).0
  unfolding put_if_absent_or_verify
  put-Keeps k p w j q there =
      rw (after_put-world k p (bucket_put if_absent k p w)) (elim (Bool-cases (text_eq k j)) [
        | inr other ↦ bucket_put-other if_absent k p j q w other there
        | inl same ↦
            let key : k ≡ j = text_eq_sound k j same in
            rw (← key) (bucket_put-present k p q w (rw key there))
      ])

  same_object-found :
      (k p : Text) (o : Fetched) → same_object platform services k p o ≡ none → o ≡ found p
  same_object-found k p missing same = cc
  same_object-found k p (get_failed message) same = cc
  same_object-found k p (found q) same = elim (Bool-cases (text_eq q p)) [
    | inl equal ↦ ap found (text_eq_sound q p equal)
    | inr other ↦ absurd (cc (rw other at same))
  ]

  after_put-found :
      (k p : Text) (r : World × PutAnswer)
      → (r.1 ≡ stored → bucket_get k r.0 ≡ found p)
      → (after_put platform services k p r).1 ≡ none
      → bucket_get k (after_put platform services k p r).0 ≡ found p
  after_put-found k p (w, stored) new taken = new refl
  after_put-found k p (w, refused) new taken = same_object-found k p (bucket_get k w) taken
  after_put-found k p (w, put_failed message) new taken = cc

  -- A conditional put that is taken, or finds the same text, leaves that text under its key.
  put-found :
      (k p : Text) (w : World)
      → (put_if_absent_or_verify platform services k p w).1 ≡ none
      → bucket_get k (put_if_absent_or_verify platform services k p w).0 ≡ found p
  unfolding put_if_absent_or_verify
  put-found k p w taken =
      after_put-found k p (bucket_put if_absent k p w) (bucket_put-stored if_absent k p w) taken

  -- What holds of the sinks of an entry: an object that they name is there and is the payload.
  abbrev pub IsSealed : Text → World → AuditImmutableSink → Type 0
  IsSealed payload w s = is_in_bucket s ≡ true → bucket_get s.ref w ≡ found payload

  pub IsSealed-kept :
      (payload : Text) (w w' : World) (ss : List AuditImmutableSink)
      → Keeps w w'
      → All (IsSealed payload w) ss
      → All (IsSealed payload w') ss
  IsSealed-kept payload w w' [] keeps h = tt
  IsSealed-kept payload w w' (s ∷ ss) keeps (is_sealed, h) =
      (λ r2. keeps s.ref payload (is_sealed r2), IsSealed-kept payload w w' ss keeps h)

  -- What a sink leaves behind.
  abbrev pub IsWritten : Text → World → World × Written → Type 0
  IsWritten payload w (w', failed message) = Keeps w w'
  IsWritten payload w (w', sinks_of ss) = Keeps w w' × All (IsSealed payload w') ss

  after_stream_copy-IsWritten :
      (e : AuditEvent) (payload at : Text) (w : World) (r : World × Option Text)
      → Keeps w r.0
      → bucket_get (entry_key platform services e) r.0 ≡ found payload
      → (r.1 ≡ none → bucket_get (stream_key platform services e) r.0 ≡ found payload)
      → IsWritten payload w (after_stream_copy platform services e at r)
  after_stream_copy-IsWritten e payload at w (w', some message) keeps there second = keeps
  after_stream_copy-IsWritten e payload at w (w', none) keeps there second =
      (keeps, ((λ r2. there), ((λ r2. second refl), tt)))

  after_entry_copy-IsWritten :
      (e : AuditEvent) (payload at : Text) (w : World) (r : World × Option Text)
      → Keeps w r.0
      → (r.1 ≡ none → bucket_get (entry_key platform services e) r.0 ≡ found payload)
      → IsWritten payload w (after_entry_copy platform services e payload at r)
  after_entry_copy-IsWritten e payload at w (w', some message) keeps there = keeps
  after_entry_copy-IsWritten e payload at w (w', none) keeps there =
      let key = stream_key platform services e in
      let kept = put-Keeps key payload w' in
      after_stream_copy-IsWritten e payload at w
        (put_if_absent_or_verify platform services key payload w') (Keeps-trans w w' _ keeps kept)
        (kept (entry_key platform services e) payload (there refl)) (put-found key payload w')

  pub copies-IsWritten :
      (e : AuditEvent) (payload at : Text) (w : World)
      → IsWritten payload w (write_r2_immutable_copies platform services e payload at w)
  unfolding write_r2_immutable_copies
  copies-IsWritten e payload at w =
      let key = entry_key platform services e in
      after_entry_copy-IsWritten e payload at w _ (put-Keeps key payload w)
        (put-found key payload w)

  after_index-IsWritten :
      (payload key at : Text) (w : World) (r : World × Option Text)
      → Keeps w r.0
      → IsWritten payload w (after_index platform services key at r)
  after_index-IsWritten payload key at w (w', some message) keeps = keeps
  after_index-IsWritten payload key at w (w', none) keeps = (keeps, ((λ r2. cc), tt))

  pub index-IsWritten :
      (e : AuditEvent) (payload payload_hash at : Text) (w : World)
      → IsWritten payload w (write_kv_index platform services e payload_hash at w)
  unfolding write_kv_index
  index-IsWritten e payload payload_hash at w =
      after_index-IsWritten payload _ at w _ (λ j q there. kv_put-kept _ _ j q w there)

  accepted-IsWritten :
      (payload at : Text) (w : World) (r : World × IngestAnswer)
      → Keeps w r.0
      → IsWritten payload w (accepted platform services at r)
  accepted-IsWritten payload at w (w', not_answered message) keeps = keeps
  accepted-IsWritten payload at w (w', answered false status header) keeps = keeps
  accepted-IsWritten payload at w (w', answered true status header) keeps =
      (keeps, ((λ r2. cc), tt))

  pub webhook-IsWritten :
      (url token : Text) (timeout_ms : ℕ) (source : Text) (e : AuditEvent)
      (payload payload_hash at : Text) (w : World)
      → IsWritten payload w (
          write_immutable_webhook platform services url token timeout_ms source e payload_hash at w)
  unfolding write_immutable_webhook
  webhook-IsWritten url token timeout_ms source e payload payload_hash at w =
      accepted-IsWritten payload at w _ (λ j q there. ingest-kept _ j q w there)

  -- What the copies in the bucket are once both puts are taken.
  abbrev pub AreCopied : AuditEvent → Text → World → Type 0
  AreCopied e payload w =
      (bucket_get (entry_key platform services e) w ≡ found payload)
      × (bucket_get (stream_key platform services e) w ≡ found payload)

  pub AreCopied-kept :
      (e : AuditEvent) (payload : Text) (w w' : World)
      → Keeps w w'
      → AreCopied e payload w
      → AreCopied e payload w'
  AreCopied-kept e payload w w' keeps (first, second) =
      (keeps _ payload first, keeps _ payload second)

  abbrev pub IsTaken : AuditEvent → Text → World × Written → Type 0
  IsTaken e payload (w, failed message) = Unit
  IsTaken e payload (w, sinks_of ss) = AreCopied e payload w

  after_stream_copy-IsTaken :
      (e : AuditEvent) (payload at : Text) (r : World × Option Text)
      → bucket_get (entry_key platform services e) r.0 ≡ found payload
      → (r.1 ≡ none → bucket_get (stream_key platform services e) r.0 ≡ found payload)
      → IsTaken e payload (after_stream_copy platform services e at r)
  after_stream_copy-IsTaken e payload at (w, some message) there second = tt
  after_stream_copy-IsTaken e payload at (w, none) there second = (there, second refl)

  after_entry_copy-IsTaken :
      (e : AuditEvent) (payload at : Text) (r : World × Option Text)
      → (r.1 ≡ none → bucket_get (entry_key platform services e) r.0 ≡ found payload)
      → IsTaken e payload (after_entry_copy platform services e payload at r)
  after_entry_copy-IsTaken e payload at (w, some message) there = tt
  after_entry_copy-IsTaken e payload at (w, none) there =
      let key = stream_key platform services e in
      after_stream_copy-IsTaken e payload at
        (put_if_absent_or_verify platform services key payload w)
        (put-Keeps key payload w (entry_key platform services e) payload (there refl))
        (put-found key payload w)

  pub copies-IsTaken :
      (e : AuditEvent) (payload at : Text) (w : World)
      → IsTaken e payload (write_r2_immutable_copies platform services e payload at w)
  unfolding write_r2_immutable_copies
  copies-IsTaken e payload at w =
      after_entry_copy-IsTaken e payload at _ (put-found (entry_key platform services e) payload w)
