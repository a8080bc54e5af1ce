-- ===== src/Security/Shell.antt =====
-- What a raw command that the default profile accepts looks like.
use tux_bridge.Prelude.{
  ℕ, ◌≤◌, ◌≡◌, ◌≢◌, refl, sym, Str, true, false, List, [], ◌∷◌, ◌++◌, any, ltb→le, len, trim,
  contains, starts_with, eq_str, eq_str→eq, All, Any, here, there, arith, append_assoc, Bool-cases,
  inl, inr, is_ascii_whitespace, ap, ◌∙◌, if◌then◌else◌,
}
use tux_bridge.Error.{ok, refuse_if-eq-ok}
use tux_bridge.Security.{needles, words_from, flush, check_program, validate_default_shell}

-- A word of the command: not empty, with no white space.
abbrev pub IsWord : Str → Type 0
IsWord w = (w ≢ []) × All (λ c. is_ascii_whitespace c ≡ false) w

-- `w` stands in `s` as a contiguous piece.
abbrev pub Occurs : Str → Str → Type 0
Occurs w s = (before : Str) × (after : Str) × (s ≡ before ++ (w ++ after))

abbrev Plain : Str → Type 0
Plain = All (λ c. is_ascii_whitespace c ≡ false)

All-snoc : (cur : Str) (c : ℕ) → Plain cur → is_ascii_whitespace c ≡ false → Plain (cur ++ c ∷ [])
All-snoc [] c h p = (p, tt)
All-snoc (x ∷ cur) c h p = (h.0, All-snoc cur c h.1 p)

-- One round of the split, by the class of the character.
words_from_step :
    (P : List Str → Type 0) (cur : Str) (c : ℕ) (s : Str)
    → (is_ascii_whitespace c ≡ true → P (flush cur (words_from [] s)))
    → (is_ascii_whitespace c ≡ false → P (words_from (cur ++ c ∷ []) s))
    → P (words_from cur (c ∷ s))
unfolding words_from
words_from_step P cur c s white black = elim (Bool-cases (is_ascii_whitespace c)) [
  | inl w ↦ rw (words_from, w) (white w)
  | inr b ↦ rw (words_from, b) (black b)
]

flush-All :
    (P : Str → Type 0) (cur : Str) (rest : List Str)
    → (cur ≢ [] → P cur)
    → All P rest
    → All P (flush cur rest)
flush-All P [] rest h k = k
flush-All P (c ∷ cur) rest h k = (h (λ e. cc), k)

words_from-IsWord : (cur s : Str) → Plain cur → All IsWord (words_from cur s)
words_from-IsWord cur [] h = unfold words_from in flush-All IsWord cur [] (λ ne. (ne, h)) tt
words_from-IsWord cur (c ∷ s) h =
    words_from_step (All IsWord) cur c s
      (λ w. flush-All IsWord cur _ (λ ne. (ne, h)) (words_from-IsWord [] s tt))
      (λ b. words_from-IsWord (cur ++ c ∷ []) s (All-snoc cur c h b))

All-map : {P Q : Str → Type 0} → ((w : Str) → P w → Q w) → (ws : List Str) → All P ws → All Q ws
All-map f [] h = tt
All-map f (w ∷ ws) h = (f w h.0, All-map f ws h.1)

Occurs-after : (p s w : Str) → Occurs w s → Occurs w (p ++ s)
Occurs-after p s w (before, after, e) = (p ++ before, after, rw e (sym (append_assoc p before _)))

words_from-Occurs : (cur s : Str) → All (λ w. Occurs w (cur ++ s)) (words_from cur s)
words_from-Occurs cur [] =
    unfold words_from in flush-All (λ w. Occurs w (cur ++ [])) cur [] (λ ne. ([], [], refl)) tt
words_from-Occurs cur (c ∷ s) =
    words_from_step (All (λ w. Occurs w (cur ++ c ∷ s))) cur c s
      (λ w.
        flush-All (λ w. Occurs w (cur ++ c ∷ s)) cur _ (λ ne. ([], c ∷ s, refl))
          (All-map (λ w o. Occurs-after cur (c ∷ s) w (Occurs-after (c ∷ []) s w o)) _
            (words_from-Occurs [] s)))
      (λ b. rw append_assoc at (words_from-Occurs (cur ++ c ∷ []) s))

starts_with-append : (n w a : Str) → starts_with n w ≡ true → starts_with n (w ++ a) ≡ true
unfolding starts_with
starts_with-append [] w a h = refl
starts_with-append (x ∷ n) [] a h = cc
starts_with-append (x ∷ n) (y ∷ w) a h = ground (arith, starts_with-append n w a)

contains-append : (n w a : Str) → contains n w ≡ true → contains n (w ++ a) ≡ true
unfolding contains
contains-append n [] [] h = h
contains-append n [] (c ∷ a) h = ground (arith, starts_with-append n [] (c ∷ a))
contains-append n (c ∷ w) a h =
    ground (arith, starts_with-append n (c ∷ w) a, contains-append n w a)

contains-prepend : (n b s : Str) → contains n s ≡ true → contains n (b ++ s) ≡ true
unfolding contains
contains-prepend n [] s h = h
contains-prepend n (c ∷ b) s h = ground (arith, contains-prepend n b s h)

contains-Occurs : (n w s : Str) → Occurs w s → contains n s ≡ false → contains n w ≡ false
contains-Occurs n w s (before, after, e) h = elim (Bool-cases (contains n w)) [
  | inl found ↦
      let outer = contains-prepend n before _ (contains-append n w after found) in
      let here : contains n s ≡ true = rw e outer in cc
  | inr absent ↦ absent
]

-- No metacharacter occurs.
abbrev pub IsClean : Str → Type 0
IsClean s = All (λ needle. contains needle s ≡ false) needles

none_found :
    (s : Str) (ns : List Str)
    → any (λ needle. contains needle s) ns ≡ false
    → All (λ needle. contains needle s ≡ false) ns
none_found s [] h = tt
none_found s (n ∷ ns) h = elim (Bool-cases (contains n s)) [
  | inl found ↦ cc (rw found at h)
  | inr absent ↦ (absent, none_found s ns (rw absent at h))
]

IsClean-Occurs :
    (w s : Str) (ns : List Str)
    → Occurs w s
    → All (λ needle. contains needle s ≡ false) ns
    → All (λ needle. contains needle w ≡ false) ns
IsClean-Occurs w s [] o h = tt
IsClean-Occurs w s (n ∷ ns) o h = (contains-Occurs n w s o h.0, IsClean-Occurs w s ns o h.1)

-- The text without its white space: what the words spell together.
pub visible : Str → Str
visible [] = []
visible (c ∷ s) = if is_ascii_whitespace c then visible s else c ∷ visible s

pub concat : List Str → Str
concat [] = []
concat (w ∷ ws) = w ++ concat ws

concat-flush : (cur : Str) (rest : List Str) → concat (flush cur rest) ≡ cur ++ concat rest
unfolding concat
concat-flush [] rest = refl
concat-flush (c ∷ cur) rest = refl

concat-words_from : (cur s : Str) → concat (words_from cur s) ≡ cur ++ visible s
unfolding visible concat
concat-words_from cur [] = unfold words_from in concat-flush cur []
concat-words_from cur (c ∷ s) =
    words_from_step (λ ws. concat ws ≡ cur ++ visible (c ∷ s)) cur c s
      (λ w. rw (w, concat-flush) (ap (λ t. cur ++ t) (concat-words_from [] s)))
      (λ b. rw b (concat-words_from (cur ++ c ∷ []) s ∙ append_assoc cur (c ∷ []) (visible s)))

-- The accepted program is one of the list.
abbrev pub HasListedProgram : List Str → List Str → Type 0
HasListedProgram allowlist [] = ⊥
HasListedProgram allowlist (program ∷ args) = Any (λ allowed. allowed ≡ program) allowlist

any-eq_str : (w : Str) (l : List Str) → any (λ a. eq_str a w) l ≡ true → Any (λ a. a ≡ w) l
any-eq_str w [] h = cc
any-eq_str w (a ∷ l) h = elim (Bool-cases (eq_str a w)) [
  | inl same ↦ here (eq_str→eq a w same)
  | inr other ↦ there (any-eq_str w l (rw other at h))
]

check_program-ok :
    (allowlist words argv : List Str)
    → check_program allowlist words ≡ ok argv
    → (argv ≡ words) × HasListedProgram allowlist words
unfolding check_program
check_program-ok allowlist [] argv h = cc
check_program-ok allowlist (program ∷ args) argv h =
    elim (Bool-cases (any (λ allowed. eq_str allowed program) allowlist)) [
      | inl listed ↦ (cc (rw listed at h), any-eq_str program allowlist listed)
      | inr absent ↦ cc (rw absent at h)
    ]

-- A command that the default profile accepts is run with a program of the allowlist, and each of
-- its arguments is a word without white space and without any of the sixteen metacharacter strings.
-- Together the words spell the trimmed command without its white space: none is lost or added.
pub validate_default_shell_ok :
    (command : Str) (allowlist argv : List Str)
    → validate_default_shell command allowlist ≡ ok argv
    → HasListedProgram allowlist argv
      × All IsWord argv
      × All IsClean argv
      × (concat argv ≡ visible (trim command))
      × (len (trim command) ≤ 16384)
unfolding validate_default_shell
validate_default_shell_ok command allowlist argv h =
    let (nonempty, h₁) = refuse_if-eq-ok _ _ _ h in
    let (short, h₂) = refuse_if-eq-ok _ _ _ h₁ in
    let (clean, h₃) = refuse_if-eq-ok _ _ _ h₂ in
    let (same, listed) = check_program-ok allowlist _ argv h₃ in
    let s = trim command in
    let absent = none_found s needles clean in
    rw same (
      listed,
      words_from-IsWord [] s tt,
      All-map (λ w o. IsClean-Occurs w s needles o absent) _ (words_from-Occurs [] s),
      concat-words_from [] s,
      ltb→le _ _ short,
    )
