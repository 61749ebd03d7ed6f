-- ===== src/Shell/Editor/Held.antt =====
-- The line in the buffer of lab3-src/read-line.c.
use cs.Common.{
  after_some, ℤ, pos, negsuc, ℕ, zero, suc, ◌+◌, ◌-◌, ◌≤◌, ◌<◌, ◌≡◌, ◌≢◌, refl, ap, subst, Bool,
  true, false, List, [], ◌∷◌, All, none, some, length, get_elem?, lt→ltb, ◌==◌, if◌then◌else◌,
  arith,
}
use cs.Shell.Editor.{Editor, max_buffer_line, put, copy, string_at, end_line}
use cs.Shell.Editor.Edits.{Content, held, below, onto}

-- line_buffer[i] = ch, where there is room.
abbrev pub stored : (ℕ → ℕ) → ℕ → ℕ → (ℕ → ℕ)
stored b i ch k = if i == k then ch else b k

pub put-some : (b : ℕ → ℕ) (i ch : ℕ) → i < 2048 → put b (pos i) ch ≡ some (stored b i ch)
unfolding put
put-some b i ch h = rw (lt→ltb i 2048 h) refl

stored-same : (b : ℕ → ℕ) (i ch : ℕ) → stored b i ch i ≡ ch
stored-same b i ch = ground arith

stored-other : (b : ℕ → ℕ) (i k ch : ℕ) → k < i → stored b i ch k ≡ b k
stored-other b i k ch h = ground arith

-- The buffer begins with this line, newest character first; no character is a null.
abbrev pub Text : (ℕ → ℕ) → List ℕ → Type 0
Text b [] = Unit
Text b (c ∷ t) = (b (length t) ≡ c) × (c ≢ 0) × Text b t

Text-stored : (b : ℕ → ℕ) (i ch : ℕ) (t : List ℕ) → length t ≤ i → Text b t → Text (stored b i ch) t
Text-stored b i ch [] le h = tt
Text-stored b i ch (c ∷ t) le h = (ground (arith, h.0), h.1, Text-stored b i ch t (omega arith) h.2)

-- One character more.
pub Text-more :
    (b : ℕ → ℕ) (ch : ℕ) (t : List ℕ) → ch ≢ 0 → Text b t → Text (stored b (length t) ch) (ch ∷ t)
Text-more b ch t some_char h =
    (stored-same b (length t) ch, some_char, Text-stored b (length t) ch t (omega arith) h)

string_at-next :
    (b : ℕ → ℕ) (left i c : ℕ) (s : List ℕ)
    → b i ≡ c
    → c ≢ 0
    → string_at left (i + 1) b ≡ some s
    → string_at (suc left) i b ≡ some (c ∷ s)
unfolding string_at
string_at-next b left i c s e some_char h =
    let char : (b i == 0) ≡ false = ground (arith, e) in
    rw char (after_some _ h (ap (λ c. some (c ∷ s)) e))

-- The string in the buffer is the line with what is behind it.
string_at-onto :
    (b : ℕ → ℕ) (left : ℕ) (t s : List ℕ)
    → Text b t
    → string_at left (length t) b ≡ some s
    → string_at (length t + left) 0 b ≡ some (onto t s)
string_at-onto b left [] s h e = subst (λ n. string_at n 0 b ≡ some s) (omega arith) e
string_at-onto b left (c ∷ t) s h e =
    let at_next : string_at left (length t + 1) b ≡ some s =
      subst (λ n. string_at left n b ≡ some s) (omega arith) e in
    let whole =
      string_at-onto b (suc left) t (c ∷ s) h.2
        (string_at-next b left (length t) c s h.0 h.1 at_next) in
    subst (λ n. string_at n 0 b ≡ some (onto t (c ∷ s))) (omega arith) whole

string_at-null : (b : ℕ → ℕ) (left i : ℕ) → b i ≡ 0 → string_at (suc left) i b ≡ some []
unfolding string_at
string_at-null b left i e = let null : (b i == 0) ≡ true = ground (arith, e) in rw null refl

-- A line with a null behind it is the string of the buffer.
pub string-line :
    (b : ℕ → ℕ) (t : List ℕ)
    → Text b t
    → length t < 2048
    → b (length t) ≡ 0
    → string_at max_buffer_line 0 b ≡ some (onto t [])
string-line b t h lt null =
    let left = 2047 - length t in
    subst (λ n. string_at n 0 b ≡ some (onto t [])) (omega arith)
      (string_at-onto b (suc left) t [] h (string_at-null b left (length t) null))

-- The editor with a line.
abbrev pub length_of : Content → ℤ
length_of (held t) = pos (length t)
length_of (below n) = negsuc n

abbrev pub at_line : Content → (ℕ → ℕ) → ℕ → List ℕ → Editor
at_line l b h w = record {
  line_buffer = b;
  line_length = length_of l;
  history_index = h;
  written = w;
}

abbrev pub Holds : (ℕ → ℕ) → Content → Type 0
Holds b (held t) = Text b t × (length t ≤ 2046)
Holds b (below n) = Unit

-- Behind the loop.
pub end_line-held :
    (b : ℕ → ℕ) (t : List ℕ) (h : ℕ) (w : List ℕ)
    → Holds b (held t)
    → (e : Editor) × (end_line (at_line (held t) b h w) ≡ some (onto t (10 ∷ []), e))
      × (e.history_index ≡ h)
unfolding end_line
end_line-held b t h w (text, le) =
    let b1 = stored b (length t) 10 in
    let b2 = stored b1 (suc (length t)) 0 in
    let whole : Text b2 (10 ∷ t) =
      Text-stored b1 (suc (length t)) 0 (10 ∷ t) (omega arith)
        (Text-more b 10 t (omega arith) text) in
    (
      record (at_line (held t) b h w) { line_buffer = b2; line_length = pos (suc (length t)) },
      after_some _ (put-some b (length t) 10 (omega arith)) (
          after_some _ (put-some b1 (suc (length t)) 0 (omega arith)) (
            after_some _
              (string-line b2 (10 ∷ t) whole (omega arith) (stored-same b1 (suc (length t)) 0))
              refl)),
      refl,
    )

-- With a null at its beginning, the buffer holds the empty text.
pub end_line-help :
    (b : ℕ → ℕ) (c : ℕ) (t : List ℕ) (h : ℕ) (w : List ℕ)
    → length (c ∷ t) ≤ 2046
    → (e : Editor) × (end_line (at_line (held (c ∷ t)) (stored b 0 0) h w) ≡ some ([], e))
      × (e.history_index ≡ h)
unfolding end_line
end_line-help b c t h w le =
    let b1 = stored (stored b 0 0) (length (c ∷ t)) 10 in
    let b2 = stored b1 (suc (length (c ∷ t))) 0 in
    let null : b2 0 ≡ 0 = ground arith in
    (
      record (at_line (held (c ∷ t)) b h w) {
        line_buffer = b2;
        line_length = pos (suc (length (c ∷ t)));
      },
      after_some _ (put-some (stored b 0 0) (length (c ∷ t)) 10 (omega arith)) (
          after_some _ (put-some b1 (suc (length (c ∷ t))) 0 (omega arith))
            (after_some _ (string_at-null b2 2047 0 null) refl)),
      refl,
    )

pub end_line-below : (b : ℕ → ℕ) (n h : ℕ) (w : List ℕ) → end_line (at_line (below n) b h w) ≡ none
unfolding end_line put
end_line-below b n h w = refl

-- The history's commands.
pub length-onto : (cs t : List ℕ) → length (onto cs t) ≡ length cs + length t
length-onto [] t = omega arith
length-onto (c ∷ cs) t = omega (arith, length-onto cs (c ∷ t))

pub onto-onto : (cs t : List ℕ) → onto (onto cs t) [] ≡ onto t cs
onto-onto [] t = refl
onto-onto (c ∷ cs) t = onto-onto cs (c ∷ t)

pub copy-onto :
    (b : ℕ → ℕ) (t cs : List ℕ)
    → Text b t
    → All (λ c. c ≢ 0) cs
    → length t + length cs < 2048
    → (b' : ℕ → ℕ) × (copy b (length t) cs ≡ some b')
      × Text b' (onto cs t)
      × (b' (length t + length cs) ≡ 0)
unfolding copy
copy-onto b t [] h clean lt = (
  stored b (length t) 0,
  put-some b (length t) 0 (omega arith),
  Text-stored b (length t) 0 t (omega arith) h,
  ground arith,
)
copy-onto b t (c ∷ cs) h clean lt =
    let b1 = stored b (length t) c in
    let (b', e, text, null) =
      copy-onto b1 (c ∷ t) cs (Text-more b c t clean.0 h) clean.1 (omega arith) in
    (
      b',
      after_some _ (put-some b (length t) c (omega arith))
          (subst (λ n. copy b1 n cs ≡ some b') (omega arith) e),
      text,
      subst (λ n. b' n ≡ 0) (omega arith) null,
    )

abbrev pub IsCommand : List ℕ → Type 0
IsCommand command = All (λ c. c ≢ 0) command × (length command ≤ 2046)

abbrev pub no_nulls : List ℕ → Bool
no_nulls [] = true
no_nulls (c ∷ cs) = if c == 0 then false else no_nulls cs

pub no_nulls-All : (cs : List ℕ) → no_nulls cs ≡ true → All (λ c. c ≢ 0) cs
no_nulls-All [] h = tt
no_nulls-All (c ∷ cs) h = ground (arith, no_nulls-All cs)

pub nth-IsCommand :
    (commands : List (List ℕ)) (h : ℕ)
    → All IsCommand commands
    → h < length commands
    → (command : List ℕ) × (get_elem? commands h ≡ some command) × IsCommand command
nth-IsCommand [] h all lt = absurd (omega arith)
nth-IsCommand (command ∷ commands) zero all lt = (command, refl, all.0)
nth-IsCommand (command ∷ commands) (suc h) all lt = nth-IsCommand commands h all.1 (omega arith)
