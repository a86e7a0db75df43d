-- ===== src/Adapter/Classify.antt =====
-- internal/adapter/classify.go: is a failed run worth a retry?
use dispatcher.Prelude.{
  ℕ, ◌-◌, ℤ, pos, negsuc, String, Bool, true, false, ◌&&◌, ◌||◌, List, [], ◌∷◌, ◌≡◌, ◌↔◌, ◌⊎◌,
  arith, ltb, leb, ◌==◌, if◌then◌else◌, any, str_eq, eq_iff,
}
use dispatcher.Adapter.{FailureDetails}

pub data FailureKind : Type 0 where
  permanent transient unknown : FailureKind

-- sig == 9 || sig == 15: SIGKILL, SIGTERM.
kills : ℕ → Bool
kills sig = (sig == 9) || (sig == 15)

unfoldable pub kill_signal_exit : ℤ → Bool
unfolding kills
kill_signal_exit (negsuc n) = false
kill_signal_exit (pos code) =
    if ltb 128 code && ltb code 192
    then kills (code - 128)
    else if leb 241 code && leb code 255
    then kills (256 - code)
    else false

kill_signals : List String
kill_signals = "killed" ∷ "SIGKILL" ∷ "SIGTERM" ∷ "terminated" ∷ []

-- The `switch d.Signal`.
unfoldable pub kill_signal : String → Bool
unfolding kill_signals
kill_signal signal = any (λ s. str_eq signal s) kill_signals

is_zero : ℤ → Bool
is_zero (pos code) = code == 0
is_zero (negsuc n) = false

unfoldable pub classify_failure : FailureDetails → FailureKind
unfolding is_zero
classify_failure d =
    if d.reclaimed
    then transient
    else if d.oom_killed
    then transient
    else if kill_signal d.signal
    then transient
    else if kill_signal_exit d.exit_code
    then transient
    else if is_zero d.exit_code && str_eq d.signal "" && str_eq d.message ""
    then unknown
    else permanent

-- SIGKILL and SIGTERM in the shell's encoding, 128 + signal, and as a wrapped negative return
-- code, 256 - signal.
abbrev pub IsKillExit : ℤ → Type 0
IsKillExit code = (code ≡ pos 137) ⊎ (code ≡ pos 143) ⊎ (code ≡ pos 241) ⊎ (code ≡ pos 247)

abbrev pub IsKillSignal : String → Type 0
IsKillSignal s = (s ≡ "killed") ⊎ (s ≡ "SIGKILL") ⊎ (s ≡ "SIGTERM") ⊎ (s ≡ "terminated")

pub kill_signal_exit_iff : (code : ℤ) → (kill_signal_exit code ≡ true) ↔ IsKillExit code
unfolding kill_signal_exit
kill_signal_exit_iff (pos code) = (λ h. ground arith, λ h. ground arith)
kill_signal_exit_iff (negsuc n) = (λ h. ground arith, λ h. ground arith)

pub kill_signal_iff : (s : String) → (kill_signal s ≡ true) ↔ IsKillSignal s
unfolding kill_signal
kill_signal_iff s = (
  λ h.
      ground
        (arith, eq_iff s "killed", eq_iff s "SIGKILL", eq_iff s "SIGTERM", eq_iff s "terminated"),
  λ h.
      ground
        (arith, eq_iff s "killed", eq_iff s "SIGKILL", eq_iff s "SIGTERM", eq_iff s "terminated"),
)

-- What the comment over ClassifyFailure lists as environmental.
abbrev pub IsEnvironmental : FailureDetails → Type 0
IsEnvironmental d =
    (d.reclaimed ≡ true) ⊎ (d.oom_killed ≡ true) ⊎ IsKillSignal d.signal ⊎ IsKillExit d.exit_code

-- A failure is transient exactly when the provider took the instance back, the runtime confirmed
-- an out-of-memory kill, the signal is one of the four names of KILL and TERM, or the exit code is
-- one of the four codes 137, 143, 241 and 247 that encode them.
pub classify_failure-transient_iff :
    (d : FailureDetails) → (classify_failure d ≡ transient) ↔ IsEnvironmental d
unfolding classify_failure
classify_failure-transient_iff d = (
  λ h. ground (arith, kill_signal_iff d.signal, kill_signal_exit_iff d.exit_code),
  λ h. ground (arith, kill_signal_iff d.signal, kill_signal_exit_iff d.exit_code),
)
