-- ===== src/Ruled/Router/Dedup.antt =====
-- src/ruled/src/output.rs, `emit`: the deduplication over a history of alerts, against the window
-- test on all the alerts that passed before.
use headless_siem.Prelude.{
  ℕ, ◌-◌, ◌≤◌, ◌<◌, ◌≡◌, refl, ap, ◌∙◌, Text, Bool, true, false, ◌&&◌, not, Option, none, some,
  List, [], ◌∷◌, any, nat_eq, list_eq, pair_eq, ◌==◌, ltb, if◌then◌else◌, insert, map, arith,
  Bool-cases, inl, inr,
}
use headless_siem.Prelude.Results.{Result, ok, err}
use headless_siem.Json.{Json}
use headless_siem.Ruled.Router.{
  AlertRouter, Sink, Io, IoError, u64_mod, age, seen_recently, emit, build_dedup_key, new_router,
  write_alert, alert_json, write_to_filesystem,
}

pub record Call (V : Type 0) : Type 0 where
  pub io : Io
  pub now : ℕ
  pub rule_id : Text
  pub title : Text
  pub level : Text
  pub event : V

-- The keys that passed, with their times, last first.
abbrev Past : Type 0
Past = List ((Text × Text) × ℕ)

abbrev in_window : ℕ → ℕ → Text × Text → Past → Bool
in_window w now k past = any (λ p. p.0 == k && ltb (now - p.1) w) past

abbrev latest : Past → Text × Text → Option ℕ
latest [] k = none
latest ((j, s) ∷ p) k = if j == k then some s else latest p k

abbrev Descending : ℕ → Past → Type 0
Descending t [] = Unit
Descending t ((k, s) ∷ p) = (s ≤ t) × Descending s p

Descending-later : (t u : ℕ) (p : Past) → t ≤ u → Descending t p → Descending u p
Descending-later t u [] le d = tt
Descending-later t u ((k, s) ∷ p) le d = (omega (arith, d.0), d.1)

in_window-old :
    (w now s : ℕ) (k : Text × Text) (p : Past)
    → Descending s p
    → w ≤ now - s
    → in_window w now k p ≡ false
in_window-old w now s k [] d le = refl
in_window-old w now s k ((j, u) ∷ p) d le =
    let older = in_window-old w now u k p d.1 (omega (arith, d.0)) in ground (arith, d.0)

age-sub : (now s : ℕ) → s ≤ now → now < u64_mod → age now s ≡ now - s
unfolding age
age-sub now s le lt = omega arith

seen_recently-latest :
    (w now t : ℕ) (k : Text × Text) (p : Past)
    → Descending t p
    → t ≤ now
    → now < u64_mod
    → seen_recently w now (latest p k) ≡ in_window w now k p
unfolding seen_recently
seen_recently-latest w now t k [] d le lt = refl
seen_recently-latest w now t k ((j, s) ∷ p) d le lt =
    let later = seen_recently-latest w now s k p d.1 (omega (arith, d.0)) lt in
    let old = in_window-old w now s k p d.1 in
    let a = age-sub now s (omega (arith, d.0)) lt in ground arith

-- `Ok(false)`
abbrev pub is_suppressed_result : Result IoError Bool → Bool
is_suppressed_result (ok b) = not b
is_suppressed_result (err e) = false

write_alert-passes :
    (io : Io) (dir : Option Text) (line : Text) (now : ℕ) (sink : Sink)
    → is_suppressed_result (write_alert io dir line now sink).1 ≡ false
unfolding write_alert write_to_filesystem
write_alert-passes io none line now sink = ground arith
write_alert-passes io (some d) line now sink = ground arith

-- Calls at times that do not fall, from `t` on, on a clock of 64 bits.
abbrev pub Rising : {V : Type 0} → ℕ → List (Call V) → Type 0
Rising t [] = Unit
Rising t (c ∷ cs) = (t ≤ c.now) × (c.now < u64_mod) × Rising c.now cs

abbrev Remembers : AlertRouter → Past → Type 0
Remembers router past = (k : Text × Text) → router.dedup_cache k ≡ latest past k

module _ {V : Type 0} ⦃J : Json V⦄ where
  abbrev pub key_of : Call V → Text × Text
  key_of c = (c.rule_id, build_dedup_key c.event)

  abbrev pub emit_call : Call V → AlertRouter → Sink → AlertRouter × Sink × Result IoError Bool
  emit_call c router sink = emit c.io c.now c.rule_id c.title c.level c.event router sink

  -- The results of a history of calls.
  unfoldable pub emit_all : List (Call V) → AlertRouter → Sink → List (Result IoError Bool)
  emit_all [] router sink = []
  emit_all (c ∷ cs) router sink =
      let (router', sink', result) = emit_call c router sink in result ∷ emit_all cs router' sink'

  -- For each call, whether an alert of its key passed less than `w` seconds before it.
  unfoldable pub repeats : ℕ → Past → List (Call V) → List Bool
  repeats w past [] = []
  repeats w past (c ∷ cs) =
      let is_repeat = in_window w c.now (key_of c) past in
      is_repeat ∷ repeats w (if is_repeat then past else (key_of c, c.now) ∷ past) cs

  emit-repeat :
      (c : Call V) (router : AlertRouter) (sink : Sink)
      → 0 < router.dedup_window_secs
      → seen_recently router.dedup_window_secs c.now (router.dedup_cache (key_of c)) ≡ true
      → emit_call c router sink ≡ (router, sink, ok false)
  unfolding emit
  emit-repeat c router sink pos h = ground (arith, h)

  emit-new :
      (c : Call V) (router : AlertRouter) (sink : Sink)
      → 0 < router.dedup_window_secs
      → seen_recently router.dedup_window_secs c.now (router.dedup_cache (key_of c)) ≡ false
      → ((emit_call c router sink).0
          ≡ record router { dedup_cache = insert (key_of c) c.now router.dedup_cache })
        × (is_suppressed_result (emit_call c router sink).2 ≡ false)
  unfolding emit
  emit-new c router sink pos h = (
    ground (arith, h),
    ground (
      arith,
      h,
      write_alert-passes c.io router.output_dir
          (J.to_text (alert_json c.rule_id c.title c.level c.event c.now)) c.now sink,
    ),
  )

  seen_recently-Remembers :
      (c : Call V) (router : AlertRouter) (t : ℕ) (past : Past)
      → Remembers router past
      → Descending t past
      → t ≤ c.now
      → c.now < u64_mod
      → seen_recently router.dedup_window_secs c.now (router.dedup_cache (key_of c))
        ≡ in_window router.dedup_window_secs c.now (key_of c) past
  seen_recently-Remembers c router t past m d le lt =
      ap (seen_recently router.dedup_window_secs c.now) (m (key_of c))
      ∙ seen_recently-latest router.dedup_window_secs c.now t (key_of c) past d le lt

  -- `AlertRouter` after an alert that passed.
  abbrev passed : Call V → AlertRouter → AlertRouter
  passed c router = record router { dedup_cache = insert (key_of c) c.now router.dedup_cache }

  Remembers-passed :
      (c : Call V) (router : AlertRouter) (past : Past)
      → Remembers router past
      → Remembers (passed c router) ((key_of c, c.now) ∷ past)
  Remembers-passed c router past m k = ap (λ o. if key_of c == k then some c.now else o) (m k)

  emit_all-from :
      (cs : List (Call V)) (t : ℕ) (past : Past) (router : AlertRouter) (sink : Sink)
      → 0 < router.dedup_window_secs
      → Rising t cs
      → Descending t past
      → Remembers router past
      → map is_suppressed_result (emit_all cs router sink)
        ≡ repeats router.dedup_window_secs past cs
  unfolding emit_all repeats
  emit_all-from [] t past router sink pos r d m = refl
  emit_all-from (c ∷ cs) t past router sink pos r d m =
      let same = seen_recently-Remembers c router t past m d r.0 r.1 in
      let d' = Descending-later t c.now past r.0 d in
      elim (Bool-cases (in_window router.dedup_window_secs c.now (key_of c) past)) [
        | inl h ↦
            rw (emit-repeat c router sink pos (same ∙ h)) rw h
              (ap (λ l. true ∷ l) (emit_all-from cs c.now past router sink pos r.2 d' m))
        | inr h ↦
            let new = emit-new c router sink pos (same ∙ h) in
            rw (new.1) rw h rw (new.0) (
              ap (λ l. false ∷ l)
                (emit_all-from cs c.now ((key_of c, c.now) ∷ past) (passed c router)
                  (emit_call c router sink).1 pos r.2 (omega arith, d')
                  (Remembers-passed c router past m)))
      ]

  -- The emission of alerts over any history, from a new router with a window greater than 0, by a
  -- 64-bit clock that does not fall: a call is answered with `Ok(false)` exactly if an alert of its
  -- rule and key, itself not answered so, came less than the window before it; errors of the
  -- writes change nothing of that.
  pub emit_all-repeats :
      (calls : List (Call V)) (dir : Option Text) (w start : ℕ) (sink : Sink)
      → 0 < w
      → Rising start calls
      → map is_suppressed_result (emit_all calls (new_router dir w) sink) ≡ repeats w [] calls
  unfolding new_router
  emit_all-repeats calls dir w start sink pos r =
      emit_all-from calls start [] (new_router dir w) sink pos r tt (λ k. refl)
