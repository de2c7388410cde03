-- ===== src/Bacnet/Polling.antt =====
-- protocols/bacnet/discover.go: startPolling over the results of its polls.
use sensor_edge.Bacnet.Iam.{DeviceInfo}
use sensor_edge.Go.{eof, Error}
use sensor_edge.Bacnet.Registry.{new_device, Device}
use sensor_edge.Prelude.{
  zero, sym, ◌∙◌, ap, suc, arith, not, ◌++◌, ◌<◌, refl, replicate, ◌≡◌, ℕ, leb, if◌then◌else◌, ◌+◌,
  [], some, true, false, ◌∷◌, none, Bool, Option, List,
}

-- pollOnce: the poll of a device is not written yet, and always succeeds.
abbrev pub poll_once : Device → Option Error
poll_once dev = none

-- startPolling, one result of pollOnce for each tick; after the third failure in a row it returns.
unfoldable pub start_polling : List (Option Error) → Device → Device
start_polling [] dev = dev
start_polling (none ∷ results) dev =
    start_polling results (record dev { fail_count = 0; online = true })
start_polling (some e ∷ results) dev =
    let failing = record dev { fail_count = dev.fail_count + 1 } in
    let more = start_polling results failing in
    if leb 3 failing.fail_count then record failing { online = false } else more

-- Three failures stand next to each other.
abbrev pub three_in_a_row : List (Option Error) → Bool
three_in_a_row [] = false
three_in_a_row (none ∷ rs) = three_in_a_row rs
three_in_a_row (some e ∷ []) = false
three_in_a_row (some e ∷ none ∷ rs) = three_in_a_row (none ∷ rs)
three_in_a_row (some e ∷ some e' ∷ []) = false
three_in_a_row (some e ∷ some e' ∷ none ∷ rs) = three_in_a_row (some e' ∷ none ∷ rs)
three_in_a_row (some e ∷ some e' ∷ some e'' ∷ rs) = true

-- The same after n failures that were counted before.
abbrev three_after : ℕ → List (Option Error) → Bool
three_after n rs = three_in_a_row (replicate n (some eof) ++ rs)

some_alike :
    (e : Error) (rs : List (Option Error)) → three_in_a_row (some e ∷ rs) ≡ three_after 1 rs
some_alike e [] = refl
some_alike e (none ∷ rs) = refl
some_alike e (some x ∷ []) = refl
some_alike e (some x ∷ none ∷ rs) = refl
some_alike e (some x ∷ some y ∷ rs) = refl

two_alike :
    (e : Error) (rs : List (Option Error))
    → three_in_a_row (some eof ∷ some e ∷ rs) ≡ three_after 2 rs
two_alike e [] = refl
two_alike e (none ∷ rs) = refl
two_alike e (some x ∷ rs) = refl

start_polling-online :
    (n : ℕ) (rs : List (Option Error)) (dev : Device)
    → n < 3
    → dev.fail_count ≡ n
    → dev.online ≡ true
    → (start_polling rs dev).online ≡ not (three_after n rs)
unfolding start_polling
start_polling-online zero [] dev h f o = o
start_polling-online (suc zero) [] dev h f o = o
start_polling-online (suc (suc zero)) [] dev h f o = o
start_polling-online zero (none ∷ rs) dev h f o =
    start_polling-online 0 rs (record dev { fail_count = 0; online = true }) (omega arith) refl refl
start_polling-online (suc zero) (none ∷ rs) dev h f o =
    start_polling-online 0 rs (record dev { fail_count = 0; online = true }) (omega arith) refl refl
start_polling-online (suc (suc zero)) (none ∷ rs) dev h f o =
    start_polling-online 0 rs (record dev { fail_count = 0; online = true }) (omega arith) refl refl
start_polling-online zero (some e ∷ rs) dev h f o =
    let test : leb 3 (dev.fail_count + 1) ≡ false = ground arith in
    ap
      (λ b.
        (if b
          then record dev { fail_count = dev.fail_count + 1; online = false }
          else start_polling rs (record dev { fail_count = dev.fail_count + 1 })).online)
      test
    ∙ start_polling-online 1 rs (record dev { fail_count = dev.fail_count + 1 }) (omega arith)
        (omega arith) o
    ∙ ap not (sym (some_alike e rs))
start_polling-online (suc zero) (some e ∷ rs) dev h f o =
    let test : leb 3 (dev.fail_count + 1) ≡ false = ground arith in
    ap
      (λ b.
        (if b
          then record dev { fail_count = dev.fail_count + 1; online = false }
          else start_polling rs (record dev { fail_count = dev.fail_count + 1 })).online)
      test
    ∙ start_polling-online 2 rs (record dev { fail_count = dev.fail_count + 1 }) (omega arith)
        (omega arith) o
    ∙ ap not (sym (two_alike e rs))
start_polling-online (suc (suc zero)) (some e ∷ rs) dev h f o =
    let test : leb 3 (dev.fail_count + 1) ≡ true = ground arith in
    ap
      (λ b.
        (if b
          then record dev { fail_count = dev.fail_count + 1; online = false }
          else start_polling rs (record dev { fail_count = dev.fail_count + 1 })).online)
      test
start_polling-online (suc (suc (suc n))) rs dev h f o = absurd (omega arith)

-- A device that was just registered is taken for offline exactly when three polls next to each other
-- fail, whatever came before and whatever would come after.
pub start_polling-three_in_a_row :
    (rs : List (Option Error)) (info : DeviceInfo)
    → (start_polling rs (new_device info)).online ≡ not (three_in_a_row rs)
start_polling-three_in_a_row rs info =
    start_polling-online 0 rs (new_device info) (omega arith) refl refl
