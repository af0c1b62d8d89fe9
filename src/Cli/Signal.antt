-- ===== src/Cli/Signal.antt =====
-- `parseSignal` of cmd/lxcri/utils.go. The table of signal names is that of golang.org/x/sys/unix, and a
-- parameter; it has 0 for a name that it does not know.
use lxcri.Base.{
  ℕ, String, false, some, none, ◌≡◌, ◌≢◌, refl, ◌∙◌, ap, ◌<◌, ◌==◌, ◌<>◌, ◌⊎◌, inl, inr,
  if◌then◌else◌, Bool-cases, has_prefix, to_upper, eq_iff, arith, decimal,
}
use lxcri.Base.Int.{ℤ, pos, atoi}
use lxcri.Base.Decimal.{atoi-decimal}

-- The name with the prefix SIG
unfoldable with_sig : String → String
with_sig name = if has_prefix name "SIG" then name else "SIG" <> name

-- `parseSignal`; SIGTERM is 15
unfoldable pub parse_signal : (String → ℤ) → String → ℤ
unfolding with_sig
parse_signal signal_num sig =
    if sig == ""
    then pos 15
    else elim (atoi sig) [ some num ↦ num | none ↦ signal_num (with_sig (to_upper sig)) ]

abbrev IsName : String → Type 0
IsName sig = (sig ≢ "") × (atoi sig ≡ none)

parse_signal-name :
    (signal_num : String → ℤ) (sig : String)
    → IsName sig
    → parse_signal signal_num sig ≡ signal_num (with_sig (to_upper sig))
unfolding parse_signal
parse_signal-name signal_num sig (given, word) = ground (arith, eq_iff sig "")

-- A signal name that is no number is looked up by its canonical form, in upper case and with one
-- prefix SIG, however it is written: in any case, with the prefix or without.
pub parse_signal_spelling :
    (signal_num : String → ℤ) (name sig : String)
    → has_prefix name "SIG" ≡ false
    → IsName sig
    → (to_upper sig ≡ name) ⊎ (to_upper sig ≡ "SIG" <> name)
    → parse_signal signal_num sig ≡ signal_num ("SIG" <> name)
unfolding with_sig
parse_signal_spelling signal_num name sig plain is_name (inl short) =
    parse_signal-name signal_num sig is_name ∙ ap signal_num (ap with_sig short ∙ rw plain refl)
parse_signal_spelling signal_num name sig plain is_name (inr long) =
    parse_signal-name signal_num sig is_name ∙ ap signal_num (ap with_sig long)

atoi-ne-none : (n : ℕ) → n < 9223372036854775808 → ¬ (atoi (decimal n) ≡ none)
atoi-ne-none n lt e = let read = atoi-decimal n lt in cc

-- A number that an int holds names the signal of that number, whatever the table has.
parse_signal-decimal :
    (signal_num : String → ℤ) (n : ℕ)
    → n < 9223372036854775808
    → parse_signal signal_num (decimal n) ≡ pos n
unfolding parse_signal
parse_signal-decimal signal_num n lt = elim (Bool-cases (decimal n == "")) [
  | inl empty ↦
      let none_read : atoi (decimal n) ≡ none =
        unfold atoi in ap atoi ((eq_iff (decimal n) "").0 empty) in
      absurd (atoi-ne-none n lt none_read)
  | inr given ↦ rw (given, atoi-decimal n lt, parse_signal) refl
]
