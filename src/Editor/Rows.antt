-- ===== src/Editor/Rows.antt =====
-- What each kind of row writes, where nothing in it was changed.
use nm_openvpn.Base.{
  Bool, Option, List, Str, [], ap, arith, false, is_some_str, ltb, none, refl, some, str, str_eq,
  suc, sym, true, ℕ, ◌||◌, ◌∙◌, ◌∷◌, ◌≡◌, ◌≤◌,
}
use nm_openvpn.Base.Maps.{Map}
use nm_openvpn.Text.{any_char, is_empty, pos, to_string}
use nm_openvpn.Import.Connection.{is_c_string}
use nm_openvpn.Editor.Widgets.{Numbers, combo_row, selected_id, unwrap_or}
use nm_openvpn.Editor.Tree.{
  mssfix_bytes_initial, mssfix_on, or_number, parse_int_default, spin_row, text, timer_secs_max,
}
use nm_openvpn.Editor.Apply.{bytes_or_yes, int_or_empty, keep_if, mssfix_value, yes_or_empty}
use nm_openvpn.Editor.Combo.{selected-combo_row_optional}
use nm_openvpn.Editor.Sets.{written}

-- `f64` holds the whole numbers up to the bound of the timers, and reads them in decimal.
pub record IsFaithful (N : Numbers) : Type 0 where
  pub parse_digits :
      (n : ℕ) → n ≤ timer_secs_max → N.parse_f64 (to_string (pos n)) ≡ some (N.of_nat n)
  pub parse_empty : N.parse_f64 [] ≡ none
  pub parse_yes : N.parse_f64 (str "yes") ≡ none
  pub larger_zero : (n : ℕ) → n ≤ timer_secs_max → N.larger (N.of_nat n) (N.of_nat 0) ≡ N.of_nat n
  pub exceeds_zero : (n : ℕ) → n ≤ timer_secs_max → N.exceeds (N.of_nat n) (N.of_nat 0) ≡ ltb 0 n
  pub in_range :
      (n top : ℕ)
      → n ≤ top
      → top ≤ timer_secs_max
      → N.set_value (N.of_nat 0) (N.of_nat top) (N.of_nat n) ≡ N.of_nat n
  pub cast : (n : ℕ) → n ≤ timer_secs_max → N.as_i64 (N.of_nat n) ≡ pos n

-- A setting is unset, or a text that libnm holds, other than the empty one.
abbrev pub IsHeld : Option Str → Type 0
IsHeld none = Unit {0}
IsHeld (some v) = (is_empty v ≡ false) × (is_c_string v ≡ true)

-- A setting is unset, or a decimal number from 1 to `top`.
pub data IsNumber (top : ℕ) : Option Str → Type 0 where
  no_number : IsNumber top none
  number : (n : ℕ) → suc n ≤ top → IsNumber top (some (to_string (pos (suc n))))

pub data IsSwitch : Option Str → Type 0 where
  off : IsSwitch none
  on : IsSwitch (some (str "yes"))

pub data IsMssfix : Option Str → Type 0 where
  automatic : IsMssfix (some (str "yes"))
  bytes : {o : Option Str} → IsNumber 65535 o → IsMssfix o

pub written_held : (o : Option Str) → IsHeld o → written (unwrap_or [] o) ≡ o
unfolding written unwrap_or is_empty
written_held none h = refl
written_held (some v) (full, whole) = rw (full, whole) refl

pub written_long : (v : Str) → IsHeld (some v) → written v ≡ some v
unfolding written
written_long v (full, whole) = rw (full, whole) refl

pub text_row : (d : Map Str) (k : Str) → IsHeld (d k) → written (text d k) ≡ d k
unfolding text
text_row d k h = written_held (d k) h

pub list_row :
    (choices : List Str) (o : Option Str)
    → IsHeld o
    → written (selected_id (combo_row ([] ∷ choices) o)) ≡ o
list_row choices o h = ap written (selected-combo_row_optional choices o) ∙ written_held o h

pub switch_row :
    (o : Option Str) → IsSwitch o → written (yes_or_empty (is_some_str o (str "yes"))) ≡ o
unfolding written yes_or_empty is_some_str is_empty str str_eq is_c_string any_char
switch_row none off = refl
switch_row o on = refl

-- A row of credentials: unset where the connection type does not use it.
pub kept_row :
    (flag : Bool) (s : Str) (o : Option Str)
    → (flag ≡ false → o ≡ none)
    → written s ≡ o
    → written (keep_if flag s) ≡ o
unfolding keep_if written is_empty
kept_row true s o unset h = h
kept_row false s o unset h = sym (unset refl)

ltb-suc : (n : ℕ) → ltb 0 (suc n) ≡ true
ltb-suc n = ground arith

or_true : (a : Bool) → (a || true) ≡ true
or_true true = refl
or_true false = refl

bytes_or_yes_lem : (s : Str) → is_empty s ≡ false → bytes_or_yes s ≡ s
unfolding bytes_or_yes is_empty
bytes_or_yes_lem [] h = cc
bytes_or_yes_lem (c ∷ s) h = refl

module _ (N : Numbers) (L : IsFaithful N) where
  open N use {F, as_i64, of_nat}
  open L use {cast, exceeds_zero, in_range, larger_zero, parse_digits, parse_empty, parse_yes}

  -- The number that a row with this range writes.
  shown_number :
      (n top : ℕ) → n ≤ top → top ≤ timer_secs_max → as_i64 (spin_row N top (of_nat n)) ≡ pos n
  unfolding spin_row
  shown_number n top h k = rw (in_range n top h k) (cast n (omega arith))

  written_shown :
      (n top : ℕ)
      → suc n ≤ top
      → top ≤ timer_secs_max
      → IsHeld (some (to_string (pos (suc n))))
      → written (int_or_empty (as_i64 (spin_row N top (of_nat (suc n)))))
        ≡ some (to_string (pos (suc n)))
  unfolding int_or_empty unwrap_or
  written_shown n top h k held =
      rw (shown_number (suc n) top h k) (written_long (to_string (pos (suc n))) held)

  pub number_row :
      (top : ℕ) (o : Option Str)
      → top ≤ timer_secs_max
      → IsHeld o
      → IsNumber top o
      → written (int_or_empty (as_i64 (spin_row N top (parse_int_default N o (of_nat 0))))) ≡ o
  unfolding parse_int_default or_number
  number_row top none k held no_number =
      rw (shown_number 0 top (omega arith) k) (unfold written is_empty int_or_empty in refl)
  number_row top o k held (number n h) =
      rw (parse_digits (suc n) (omega arith)) (written_shown n top h k held)

  initial_bytes :
      (raw : Str) (n : ℕ)
      → n ≤ timer_secs_max
      → or_number N (of_nat 0) (N.parse_f64 raw) ≡ of_nat n
      → mssfix_bytes_initial N raw ≡ of_nat n
  unfolding mssfix_bytes_initial
  initial_bytes raw n h e = ap (λ x. N.larger x (of_nat 0)) e ∙ larger_zero n h

  on_for_bytes :
      (raw : Str) (n : ℕ)
      → suc n ≤ timer_secs_max
      → mssfix_bytes_initial N raw ≡ of_nat (suc n)
      → mssfix_on N raw ≡ true
  unfolding mssfix_on
  on_for_bytes raw n h e =
      rw (e, exceeds_zero (suc n) h, ltb-suc n) (or_true (is_some_str (some raw) (str "yes")))

  off_for_none : mssfix_bytes_initial N [] ≡ of_nat 0 → mssfix_on N [] ≡ false
  unfolding mssfix_on is_some_str str_eq str
  off_for_none e = rw (e, exceeds_zero 0 (omega arith)) refl

  on_for_yes : mssfix_on N (str "yes") ≡ true
  unfolding mssfix_on is_some_str str_eq str
  on_for_yes = refl

  mssfix_number :
      (raw : Str) (n : ℕ)
      → suc n ≤ 65535
      → raw ≡ to_string (pos (suc n))
      → IsHeld (some raw)
      → written (mssfix_value N (mssfix_on N raw) (spin_row N 65535 (mssfix_bytes_initial N raw)))
        ≡ some raw
  unfolding mssfix_value or_number int_or_empty
  mssfix_number raw n h e held =
      let read : or_number N (of_nat 0) (N.parse_f64 raw) ≡ of_nat (suc n) =
        ap (λ s. or_number N (of_nat 0) (N.parse_f64 s)) e
        ∙ ap (or_number N (of_nat 0)) (parse_digits (suc n) (omega arith)) in
      let start = initial_bytes raw (suc n) (omega arith) read in
      rw
        (
          on_for_bytes raw n (omega arith) start,
          start,
          shown_number (suc n) 65535 h (omega arith),
          ← e,
          bytes_or_yes_lem raw held.0,
        )
        (written_long raw held)

  pub mssfix_row :
      (o : Option Str)
      → IsHeld o
      → IsMssfix o
      → written (
          mssfix_value N
            (mssfix_on N (unwrap_or [] o))
            (spin_row N 65535 (mssfix_bytes_initial N (unwrap_or [] o))))
        ≡ o
  unfolding unwrap_or or_number mssfix_value
  mssfix_row none held (bytes no_number) =
      let start = initial_bytes [] 0 (omega arith) (rw parse_empty refl) in
      rw (off_for_none start) (unfold mssfix_value written is_empty in refl)
  mssfix_row o held automatic =
      let start = initial_bytes (str "yes") 0 (omega arith) (rw parse_yes refl) in
      rw (on_for_yes, start, shown_number 0 65535 (omega arith) (omega arith))
        (unfold mssfix_value int_or_empty bytes_or_yes in written_long (str "yes") held)
  mssfix_row o held (bytes (number n h)) = mssfix_number (to_string (pos (suc n))) n h refl held
