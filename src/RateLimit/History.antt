-- ===== src/RateLimit/History.antt =====
-- ratelimit.py over a whole history of calls, against the plain record of who failed when.
use rc_tunnel.Base.{
  ℕ, ◌+◌, ◌≤◌, ◌<◌, ◌≡◌, refl, ap, sym, ◌∙◌, Option, none, some, List, [], ◌∷◌, ◌++◌, inl, inr,
  arith, length, All, leb, if◌then◌else◌, Text, text_eq, text_eq_iff, Bool-cases, Option-cases,
  lt→leb,
}
use rc_tunnel.Base.Dict.{
  text_key, get, get-put, get-pop, length-put-le, length-pop-le, length-put_known,
}
use rc_tunnel.RateLimit.{
  Fails, max, max_ips, live, fails_of, store, too_many, append_fail, record_fail, clear,
}
use rc_tunnel.RateLimit.Table.{
  IsBounded, record_fail-IsBounded, length-record_fail-le, length-clear,
}

-- a call of the module by a request from some IP
pub data Call : Type 0 where
  checks fails clears : Option Text → Call

unfoldable pub step : Fails → ℕ × Call → Fails
step s (now, checks ip) = (too_many now ip s).0
step s (now, fails ip) = record_fail now ip s
step s (now, clears ip) = clear ip s

unfoldable pub run : Fails → List (ℕ × Call) → Fails
run s [] = s
run s (e ∷ es) = run (step s e) es

-- the times at which `k` failed since it was last cleared
unfoldable pub note : Text → List ℕ → ℕ × Call → List ℕ
note k ts (now, fails (some ip)) = if text_eq ip k then ts ++ (now ∷ []) else ts
note k ts (now, clears (some ip)) = if text_eq ip k then [] else ts
note k ts _ = ts

unfoldable pub failures : Text → List ℕ → List (ℕ × Call) → List ℕ
unfolding note
failures k ts [] = ts
failures k ts (e ∷ es) = failures k (note k ts e) es

fails_of-store :
    (ip k : Text) (ts : List ℕ) (s : Fails)
    → fails_of k (store ip ts s) ≡ (if text_eq ip k then ts else fails_of k s)
unfolding fails_of store
fails_of-store ip k [] s = rw get-pop (ground arith)
fails_of-store ip k (t ∷ ts) s = rw get-put (ground arith)

fails_of-append_fail :
    (now : ℕ) (ip k : Text) (s : Fails)
    → fails_of k (append_fail now ip s)
      ≡ (if text_eq ip k then fails_of ip s ++ (now ∷ []) else fails_of k s)
unfolding fails_of append_fail
fails_of-append_fail now ip k s = rw get-put (ground arith)

fails_of-clear :
    (c : ℕ) (ip k : Text) (s : Fails)
    → fails_of k (clear (some (c ∷ ip)) s) ≡ (if text_eq (c ∷ ip) k then [] else fails_of k s)
unfolding fails_of clear
fails_of-clear c ip k s = rw get-pop (ground arith)

live-live : (t now : ℕ) (ts : List ℕ) → t ≤ now → live now (live t ts) ≡ live now ts
live-live t now [] h = refl
live-live t now (u ∷ ts) h = ground (arith, live-live t now ts h)

live-append : (now : ℕ) (ts us : List ℕ) → live now (ts ++ us) ≡ live now ts ++ live now us
live-append now [] us = refl
live-append now (t ∷ ts) us = ground (arith, live-append now ts us)

module _ (now : ℕ) (c : ℕ) (k : Text) where
  -- the failures that count for `c ∷ k` at the time `now`
  abbrev Agrees : Fails → List ℕ → Type 0
  Agrees s ts = live now (fails_of (c ∷ k) s) ≡ live now ts

  check-Agrees :
      (t d : ℕ) (ip : Text) (s : Fails) (ts : List ℕ)
      → t ≤ now
      → Agrees s ts
      → Agrees (too_many t (some (d ∷ ip)) s).0 ts
  unfolding too_many
  check-Agrees t d ip s ts h a = rw fails_of-store (elim (Bool-cases (text_eq (d ∷ ip) (c ∷ k))) [
    | inl hit ↦
        rw (hit, (text_eq_iff (d ∷ ip) (c ∷ k)).0 hit) (live-live t now (fails_of (c ∷ k) s) h ∙ a)
    | inr miss ↦ rw miss a
  ])

  fail-Agrees :
      (t d : ℕ) (ip : Text) (s : Fails) (ts : List ℕ)
      → Agrees s ts
      → Agrees (append_fail t (d ∷ ip) s) (note (c ∷ k) ts (t, fails (some (d ∷ ip))))
  unfolding note
  fail-Agrees t d ip s ts a =
      rw fails_of-append_fail (elim (Bool-cases (text_eq (d ∷ ip) (c ∷ k))) [
        | inl hit ↦
            rw (hit, (text_eq_iff (d ∷ ip) (c ∷ k)).0 hit)
              (live-append now (fails_of (c ∷ k) s) (t ∷ [])
                ∙ ap (λ us. us ++ live now (t ∷ [])) a
                ∙ sym (live-append now ts (t ∷ [])))
        | inr miss ↦ rw miss a
      ])

  clear-Agrees :
      (t d : ℕ) (ip : Text) (s : Fails) (ts : List ℕ)
      → Agrees s ts
      → Agrees (clear (some (d ∷ ip)) s) (note (c ∷ k) ts (t, clears (some (d ∷ ip))))
  unfolding note
  clear-Agrees t d ip s ts a =
      rw fails_of-clear
        (elim (Bool-cases (text_eq (d ∷ ip) (c ∷ k))) [ inl hit ↦ rw hit | inr miss ↦ rw miss a ])

  step-Agrees :
      (s : Fails) (ts : List ℕ) (e : ℕ × Call)
      → e.0 ≤ now
      → length s < max_ips
      → Agrees s ts
      → Agrees (step s e) (note (c ∷ k) ts e)
  unfolding step note too_many record_fail clear
  step-Agrees s ts (t, checks (some (d ∷ ip))) h room a =
      unfold too_many in check-Agrees t d ip s ts h a
  step-Agrees s ts (t, fails (some (d ∷ ip))) h room a =
      rw (lt→leb (length s) max_ips room) (fail-Agrees t d ip s ts a)
  step-Agrees s ts (t, clears (some (d ∷ ip))) h room a = clear-Agrees t d ip s ts a
  step-Agrees s ts (t, checks none) h room a = a
  step-Agrees s ts (t, checks (some [])) h room a = a
  step-Agrees s ts (t, fails none) h room a = a
  step-Agrees s ts (t, fails (some [])) h room a = a
  step-Agrees s ts (t, clears none) h room a = a
  step-Agrees s ts (t, clears (some [])) h room a = a

length-store-le : (ip : Text) (ts : List ℕ) (s : Fails) → length (store ip ts s) ≤ length s + 1
unfolding store
length-store-le ip [] s = omega (arith, length-pop-le {V = List ℕ} ip s)
length-store-le ip (t ∷ ts) s = length-put-le ip (t ∷ ts) s

length-store_known :
    (ip : Text) (us ts : List ℕ) (s : Fails)
    → get ip s ≡ some ts
    → length (store ip us s) ≤ length s
unfolding store
length-store_known ip [] ts s e = length-pop-le {V = List ℕ} ip s
length-store_known ip (u ∷ us) ts s e = omega (arith, length-put_known ip (u ∷ us) ts s e)

-- pruning never adds an entry
length-store-live :
    (now : ℕ) (ip : Text) (s : Fails) → length (store ip (live now (fails_of ip s)) s) ≤ length s
unfolding store fails_of
length-store-live now ip s = elim (Option-cases (get ip s)) [
  | inl e ↦ rw e (length-pop-le {V = List ℕ} ip s)
  | inr (ts, e) ↦ length-store_known ip (live now (fails_of ip s)) ts s e
]

length-step-le : (s : Fails) (e : ℕ × Call) → length (step s e) ≤ length s + 1
unfolding step too_many
length-step-le s (t, checks none) = omega arith
length-step-le s (t, checks (some [])) = omega arith
length-step-le s (t, checks (some (c ∷ ip))) = length-store-le (c ∷ ip) _ s
length-step-le s (t, fails ip) = length-record_fail-le t ip s
length-step-le s (t, clears ip) = omega (arith, length-clear ip s)

step-IsBounded : (s : Fails) (e : ℕ × Call) → IsBounded s → IsBounded (step s e)
unfolding step too_many
step-IsBounded s (t, checks none) h = h
step-IsBounded s (t, checks (some [])) h = h
step-IsBounded s (t, checks (some (c ∷ ip))) h = omega (arith, length-store-live t (c ∷ ip) s)
step-IsBounded s (t, fails ip) h = record_fail-IsBounded t ip s h
step-IsBounded s (t, clears ip) h = omega (arith, length-clear ip s)

-- A table of at most `MAX_IPS` IPs never grows beyond that, whatever the calls and their times.
pub run-IsBounded : (s : Fails) (es : List (ℕ × Call)) → IsBounded s → IsBounded (run s es)
unfolding run
run-IsBounded s [] h = h
run-IsBounded s (e ∷ es) h = run-IsBounded (step s e) es (step-IsBounded s e h)

run-Agrees :
    (now c : ℕ) (k : Text) (s : Fails) (ts : List ℕ) (es : List (ℕ × Call))
    → All (λ e. e.0 ≤ now) es
    → length s + length es ≤ max_ips
    → Agrees now c k s ts
    → Agrees now c k (run s es) (failures (c ∷ k) ts es)
unfolding run failures
run-Agrees now c k s ts [] past room a = a
run-Agrees now c k s ts (e ∷ es) past room a =
    run-Agrees now c k (step s e) (note (c ∷ k) ts e) es past.1 (omega (arith, length-step-le s e))
      (step-Agrees now c k s ts e past.0 (omega arith) a)

-- After any history of at most `MAX_IPS` calls on an empty table, none of them later than `now`, a
-- nonempty IP is throttled exactly if it failed at least `MAX` times in the last `WINDOW` seconds
-- since it was last cleared.
pub too_many-exact :
    (now c : ℕ) (k : Text) (es : List (ℕ × Call))
    → All (λ e. e.0 ≤ now) es
    → length es ≤ max_ips
    → (too_many now (some (c ∷ k)) (run [] es)).1
      ≡ leb max (length (live now (failures (c ∷ k) [] es)))
unfolding too_many
too_many-exact now c k es past few =
    ap (λ ts. leb max (length ts))
      (run-Agrees now c k [] [] es past (omega arith) (unfold fails_of get in refl))
