-- ===== src/BotDetection/Window.antt =====
-- server/src/modules/security/bot-detection.service.ts, `check`: what the pruned log still knows.
use mmorpg_design_documents.Base.{
  ℕ, ◌+◌, ◌≡◌, refl, ◌∙◌, sym, ap, subst, inl, inr, Bool, true, false, ◌&&◌, Bool-cases, List, [],
  ◌∷◌, ◌++◌, String, ltb, arith, if◌then◌else◌,
}
use mmorpg_design_documents.Base.Int.{ℤ, pos, ◌-ℤ◌, ◌≤ℤ◌, ltb_ℤ, int_laws}
use mmorpg_design_documents.Base.Key.{string_eq, ◌==◌, eq_sym, eq_self, eq_lem}
use mmorpg_design_documents.Base.Dict.{lookup, lookup-insert, lookup-insert_self}
use mmorpg_design_documents.Base.Lists.{keep, length}
use mmorpg_design_documents.BotDetection.{
  LoggedAction, BotDetectionService, new_bot_detection, or_empty, recent, check,
}

pub record Call : Type 0 where
  pub character_id : String
  pub action_key : String
  pub at : ℤ

-- A history of calls, the latest first, and what it leaves of a new service.
unfoldable pub run : List Call → BotDetectionService
run [] = new_bot_detection
run (x ∷ h) = (check x.character_id x.action_key x.at (run h)).1

-- The latest call is not after a time.
unfoldable pub IsSince : ℤ → List Call → Type 0
IsSince now [] = Unit {0}
IsSince now (x ∷ h) = x.at ≤ℤ now

-- The clock does not run backwards between the calls.
unfoldable pub IsOrdered : List Call → Type 0
unfolding IsSince
IsOrdered [] = Unit {0}
IsOrdered (x ∷ h) = IsSince x.at h × IsOrdered h

abbrev bit : Bool → ℕ
bit true = 1
bit false = 0

-- The call is one of the character's, with that key, less than a second before `now`.
abbrev pub counts : String → String → ℤ → Call → Bool
counts c key now x = x.character_id == c && (x.action_key == key && ltb_ℤ (now -ℤ pos 1000) x.at)

pub calls : String → String → ℤ → List Call → ℕ
calls c key now [] = 0
calls c key now (x ∷ h) = (if counts c key now x then 1 else 0) + calls c key now h

-- The entries that `check` counts.
abbrev tally : String → ℤ → List LoggedAction → ℕ
tally key now [] = 0
tally key now (e ∷ es) = bit (e.action_key == key && recent now e) + tally key now es

tally-append :
    (key : String) (now : ℤ) (xs ys : List LoggedAction)
    → tally key now (xs ++ ys) ≡ tally key now xs + tally key now ys
tally-append key now [] ys = omega arith
tally-append key now (x ∷ xs) ys = omega (arith, tally-append key now xs ys)

uncounted : (b r : Bool) (n : ℕ) → r ≡ false → bit (b && r) + n ≡ n
uncounted true r n q = rw q (omega arith)
uncounted false r n q = omega arith

not_above : (a b t : ℤ) → a ≤ℤ b → ltb_ℤ a t ≡ false → ltb_ℤ b t ≡ false
not_above a b t h q = ground arith

-- What has expired once stays so.
stale_later :
    (before now : ℤ) (e : LoggedAction)
    → before ≤ℤ now
    → recent before e ≡ false
    → recent now e ≡ false
stale_later before now e h q =
    not_above (before -ℤ pos 1000) (now -ℤ pos 1000) e.ts (omega int_laws) q

-- Pruning at an earlier time loses nothing that counts later.
tally-keep :
    (key : String) (before now : ℤ) (xs : List LoggedAction)
    → before ≤ℤ now
    → tally key now (keep (recent before) xs) ≡ tally key now xs
tally-keep key before now [] h = refl
tally-keep key before now (x ∷ xs) h = elim (Bool-cases (recent before x)) [
  | inl fresh ↦
      rw fresh
        (ap (λ n. bit (x.action_key == key && recent now x) + n) (tally-keep key before now xs h))
  | inr stale ↦ rw stale (
      tally-keep key before now xs h
      ∙ sym (
          uncounted (x.action_key == key) (recent now x) (tally key now xs)
            (stale_later before now x h stale)))
]

length-keep-tally :
    (key : String) (now : ℤ) (xs : List LoggedAction)
    → length (keep (λ e. e.action_key == key) (keep (recent now) xs)) ≡ tally key now xs
length-keep-tally key now [] = refl
length-keep-tally key now (x ∷ xs) = elim (Bool-cases (recent now x)) [
  | inl fresh ↦ elim (Bool-cases (x.action_key == key)) [
    | inl same ↦ rw (fresh, same) (omega (arith, length-keep-tally key now xs))
    | inr other ↦ rw (fresh, other) (omega (arith, length-keep-tally key now xs))
  ]
  | inr stale ↦ rw stale (
      length-keep-tally key now xs
      ∙ sym (uncounted (x.action_key == key) false (tally key now xs) refl))
]

IsSince-trans : (a b : ℤ) (h : List Call) → IsSince a h → a ≤ℤ b → IsSince b h
unfolding IsSince
IsSince-trans a b [] p q = p
IsSince-trans a b (x ∷ h) p q = omega arith

counted : (b : Bool) (n m k : ℕ) → k ≡ n + (bit b + 0) → n ≡ m → k ≡ (if b then 1 else 0) + m
counted true n m k e h = omega arith
counted false n m k e h = omega arith

-- The log of the character who calls, after the call.
own_log :
    (key : String) (now : ℤ) (x : Call) (h : List Call)
    → x.at ≤ℤ now
    → tally key now (or_empty (lookup x.character_id (run h).action_log))
      ≡ calls x.character_id key now h
    → tally key now (or_empty (lookup x.character_id (run (x ∷ h)).action_log))
      ≡ calls x.character_id key now (x ∷ h)
unfolding run calls check
own_log key now x h p ih =
    rw (lookup-insert_self x.character_id entries (run h).action_log, eq_self x.character_id)
      (counted (x.action_key == key && recent now last) (tally key now kept) _ _
        (tally-append key now kept (last ∷ []))
        (tally-keep key x.at now (or_empty (lookup x.character_id (run h).action_log)) p ∙ ih))
  where
    last : LoggedAction
    last = record { action_key = x.action_key; ts = x.at }

    kept : List LoggedAction
    kept = keep (recent x.at) (or_empty (lookup x.character_id (run h).action_log))

    entries : List LoggedAction
    entries = kept ++ last ∷ []

-- What a character's log holds of the last second is what the whole history holds of it.
log-calls :
    (c key : String) (now : ℤ) (h : List Call)
    → IsOrdered h
    → IsSince now h
    → tally key now (or_empty (lookup c (run h).action_log)) ≡ calls c key now h
unfolding run calls IsOrdered IsSince check lookup
log-calls c key now [] o p = refl
log-calls c key now (x ∷ h) (since, o) p =
    let earlier = IsSince-trans x.at now h since p in
    elim (Bool-cases (x.character_id == c)) [
      | inl same ↦
          subst
            (λ n.
              tally key now (or_empty (lookup n (run (x ∷ h)).action_log))
              ≡ calls n key now (x ∷ h))
            ((eq_lem x.character_id c).0 same)
            (own_log key now x h p (log-calls x.character_id key now h o earlier))
      | inr other ↦
          ap (λ found. tally key now (or_empty found)) {y = lookup c (run h).action_log}
            (lookup-insert c x.character_id _ (run h).action_log
              ∙ (rw (eq_sym c x.character_id ∙ other) refl))
          ∙ log-calls c key now h o earlier
          ∙ (rw other (omega arith))
    ]

length-keep-last :
    (q : LoggedAction → Bool) (xs : List LoggedAction) (y : LoggedAction)
    → q y ≡ true
    → length (keep q (xs ++ y ∷ [])) ≡ length (keep q xs) + 1
length-keep-last q [] y e = rw e (omega arith)
length-keep-last q (x ∷ xs) y e = elim (Bool-cases (q x)) [
  | inl kept ↦ rw kept (omega (arith, length-keep-last q xs y e))
  | inr gone ↦ rw gone (length-keep-last q xs y e)
]

-- Where the clock does not run backwards, the pruned logs decide as the whole history would: a
-- call is flagged exactly when it and the earlier calls of that character with that key less than
-- a second before it are more than five.
pub check-flags :
    (c key : String) (now : ℤ) (h : List Call)
    → IsOrdered h
    → IsSince now h
    → (check c key now (run h)).0 ≡ ltb 5 (calls c key now h + 1)
unfolding check
check-flags c key now h o p =
    let old = or_empty (lookup c (run h).action_log) in
    ap (λ n. ltb 5 n)
      (length-keep-last (λ e. e.action_key == key) (keep (recent now) old) _ (eq_self key)
        ∙ ap (λ n. n + 1) (length-keep-tally key now old ∙ log-calls c key now h o p))
