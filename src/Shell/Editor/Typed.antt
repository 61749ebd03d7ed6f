-- ===== src/Shell/Editor/Typed.antt =====
-- That read_line of lab3-src/read-line.c edits lines.
use cs.Common.{
  codes, pos, ℕ, suc, ◌+◌, ◌%◌, ◌≤◌, ◌<◌, ◌≡◌, ◌≢◌, refl, ap, subst, ◌∙◌, true, Bool-cases, inl,
  inr, ◌&&◌, List, [], ◌∷◌, ◌++◌, All, some, length, get_elem?, ◌==◌, arith,
}
use cs.Shell.Editor.{
  Editor, Phase, typing, escape, sequence, Outcome, going, leaves, max_buffer_line, history, put,
  string_at, echo, add_char, print_usage, delete_char, up_arrow, recall, recalled, typed, key, Read,
  end_line, returned, follow, edit, read_line, with_buffer, usage,
}
use cs.Shell.Editor.Edits.{
  Content, held, below, onto, Kind, enter, backspace, help, introduces, character, other, kind,
  Edited, returns, result, press, show_command, edits,
}
use cs.Shell.Editor.Held.{
  no_nulls, stored, Holds, at_line, put-some, Text-more, string-line, end_line-held, end_line-help,
  end_line-below, copy-onto, no_nulls-All, IsCommand, nth-IsCommand, onto-onto, length-onto,
}

-- What read_line does at a key of each kind.
abbrev act : Kind → Editor → ℕ → Outcome
act enter e ch = leaves (echo e (10 ∷ []))
act backspace e ch = delete_char e
act help e ch = print_usage e
act introduces e ch = going escape e
act character e ch = add_char e ch
act other e ch = going typing e

typed-kind : (e : Editor) (ch : ℕ) → typed e ch ≡ act (kind ch) e ch
unfolding typed kind
typed-kind e ch = ground arith

kind_of_character : (ch : ℕ) → kind ch ≡ character → ch ≢ 0
unfolding kind
kind_of_character ch h = ground arith

-- Leaving the loop.
leaves-held :
    (b : ℕ → ℕ) (t : List ℕ) (h : ℕ) (w keys : List ℕ)
    → Holds b (held t)
    → result (returned (end_line (at_line (held t) b h w)) keys) ≡ returns (onto t (10 ∷ [])) h keys
leaves-held b t h w keys holds =
    let (e, done, same) = end_line-held b t h w holds in
    ap (λ r. result (returned r keys)) done ∙ ap (λ h. returns (onto t (10 ∷ [])) h keys) same

module _ (keys : List ℕ) (run : Phase → Editor → Read) (next : Phase → Content → ℕ → Edited)
    (agree : (p : Phase) (l : Content) (b : ℕ → ℕ) (h : ℕ) (w : List ℕ)
      → Holds b l
      → h < length history
      → result (run p (at_line l b h w)) ≡ next p l h) where
  -- A key of each kind.
  press-character :
      (ch : ℕ) (l : Content) (b : ℕ → ℕ) (h : ℕ) (w : List ℕ)
      → ch ≢ 0
      → Holds b l
      → h < length history
      → result (follow (add_char (at_line l b h w) ch) run keys) ≡ press next keys character ch l h
  unfolding add_char put
  press-character ch (below n) b h w some_char holds small = refl
  press-character ch (held t) b h w some_char (text, le) small =
      elim (Bool-cases (length t == 2046)) [
        | inl e ↦ rw e (leaves-held b t h (w ++ (ch ∷ [])) keys (text, le))
        | inr e ↦ rw e (
            ap
              (λ r. result (
                follow
                  (with_buffer r λ buffer. going typing (record {
                    line_buffer = buffer;
                    line_length = pos (suc (length t));
                    history_index = h;
                    written = w ++ (ch ∷ []);
                  }))
                  run keys))
              (put-some b (length t) ch (omega arith))
            ∙ agree typing (held (ch ∷ t)) (stored b (length t) ch) h (w ++ (ch ∷ []))
                (Text-more b ch t some_char text, ground arith) small)
      ]

  press-help :
      (ch : ℕ) (l : Content) (b : ℕ → ℕ) (h : ℕ) (w : List ℕ)
      → Holds b l
      → result (follow (print_usage (at_line l b h w)) run keys) ≡ press next keys help ch l h
  unfolding put
  press-help ch (below n) b h w holds =
      ap (λ r. result (returned r keys)) (end_line-below (stored b 0 0) n h (w ++ usage))
  press-help ch (held []) b h w holds =
      leaves-held (stored b 0 0) [] h (w ++ usage) keys (tt, holds.1)
  press-help ch (held (c ∷ t)) b h w (text, le) =
      let (e, done, same) = end_line-help b c t h (w ++ usage) le in
      ap (λ r. result (returned r keys)) done ∙ ap (λ h. returns [] h keys) same

  press-kind :
      (k : Kind) (ch : ℕ) (l : Content) (b : ℕ → ℕ) (h : ℕ) (w : List ℕ)
      → kind ch ≡ k
      → Holds b l
      → h < length history
      → result (follow (act k (at_line l b h w) ch) run keys) ≡ press next keys k ch l h
  press-kind other ch l b h w e holds small = agree typing l b h w holds small
  press-kind introduces ch l b h w e holds small = agree escape l b h w holds small
  press-kind backspace ch (held []) b h w e holds small = agree typing (below 0) b h _ tt small
  press-kind backspace ch (held (c ∷ t)) b h w e (text, le) small =
      agree typing (held t) b h _ (text.2, omega arith) small
  press-kind backspace ch (below n) b h w e holds small =
      agree typing (below (suc n)) b h _ tt small
  press-kind character ch l b h w e holds small =
      press-character ch l b h w (kind_of_character ch e) holds small
  press-kind help ch l b h w e holds small = press-help ch l b h w holds
  press-kind enter ch (held t) b h w e holds small = leaves-held b t h _ keys holds
  press-kind enter ch (below n) b h w e holds small =
      ap (λ r. result (returned r keys)) (end_line-below b n h _)

  -- The up arrow.
  recall-held :
      (command : List ℕ) (l : Content) (b : ℕ → ℕ) (h : ℕ) (w : List ℕ)
      → IsCommand command
      → h < length history
      → result (follow (recall (at_line l b h w) (some command)) run keys)
        ≡ next typing (held (onto command [])) ((h + 1) % length history)
  recall-held command l b h w (clean, le) small =
      let (b', copied, text, null) = copy-onto b [] command tt clean (omega arith) in
      let n = length-onto command [] in
      let t = onto command [] in
      let shown : string_at max_buffer_line 0 b' ≡ some command =
        string-line b' t text (omega (arith, n)) (subst (λ k. b' k ≡ 0) (omega (arith, n)) null)
        ∙ ap (λ s. some s) (onto-onto command []) in
      let e = at_line l b h w in
      let recalled_line : Editor = at_line (held t) b' ((h + 1) % length history) (w ++ command) in
      let grown : pos (length command) ≡ pos (length t) = ap (λ n. pos n) (omega (arith, n)) in
      ap
        (λ r. result (
          follow (with_buffer r λ buffer. recalled e buffer (string_at max_buffer_line 0 buffer))
            run keys))
        copied
      ∙ ap (λ r. result (follow (recalled e b' r) run keys)) shown
      ∙ ap (λ n. result (run typing (record recalled_line { line_length = n }))) grown
      ∙ agree typing (held t) b' ((h + 1) % length history) (w ++ command) (text, omega (arith, n))
          (omega arith)

clean-IsCommand :
    (command : List ℕ) → no_nulls command ≡ true → length command ≤ 2046 → IsCommand command
clean-IsCommand command clean le = (no_nulls-All command clean, le)

history-IsCommand : All IsCommand history
history-IsCommand = (
  clean-IsCommand (codes "ls -al | grep x") refl (omega arith),
  (
    clean-IsCommand (codes "ps -e") refl (omega arith),
    (
      clean-IsCommand (codes "cat read-line-example.c") refl (omega arith),
      (
        clean-IsCommand (codes "vi hello.c") refl (omega arith),
        (
          clean-IsCommand (codes "make") refl (omega arith),
          (clean-IsCommand (codes "ls -al | grep xxx | grep yyy") refl (omega arith), tt),
        ),
      ),
    ),
  ),
)

up_arrow-held :
    (keys : List ℕ) (run : Phase → Editor → Read) (next : Phase → Content → ℕ → Edited)
    → ((p : Phase) (l : Content) (b : ℕ → ℕ) (h : ℕ) (w : List ℕ)
        → Holds b l
        → h < length history
        → result (run p (at_line l b h w)) ≡ next p l h)
    → (l : Content) (b : ℕ → ℕ) (h : ℕ) (w : List ℕ) → h < length history
    → result (follow (up_arrow (at_line l b h w)) run keys)
      ≡ show_command next keys (get_elem? history h) h
unfolding up_arrow
up_arrow-held keys run next agree l b h w small =
    let (command, found, is_command) = nth-IsCommand history h history-IsCommand small in
    rw found (recall-held keys run next agree command l b h _ is_command small)

edit-edits :
    (keys : List ℕ) (p : Phase) (l : Content) (b : ℕ → ℕ) (h : ℕ) (w : List ℕ)
    → Holds b l
    → h < length history
    → result (edit p (at_line l b h w) keys) ≡ edits p l h keys
unfolding edit edits key
edit-edits [] p l b h w holds small = refl
edit-edits (ch ∷ keys) typing l b h w holds small =
    ap (λ o. result (follow o (λ p e. edit p e keys) keys)) (typed-kind (at_line l b h w) ch)
    ∙ press-kind keys (λ p e. edit p e keys) (λ p l h. edits p l h keys) (edit-edits keys) (kind ch)
        ch l b h w refl holds small
edit-edits (ch ∷ keys) escape l b h w holds small =
    edit-edits keys (sequence ch) l b h w holds small
edit-edits (ch ∷ keys) (sequence first_char) l b h w holds small =
    elim (Bool-cases ((first_char == 91) && (ch == 65))) [
      | inl e ↦ rw e (
          up_arrow-held keys (λ p e. edit p e keys) (λ p l h. edits p l h keys) (edit-edits keys) l
            b h w small)
      | inr e ↦ rw e (edit-edits keys typing l b h w holds small)
    ]

-- Whatever is typed, with the history's index within the history, read_line does to its buffer
-- what editing a text does: it returns the same line with the same index and leaves the same keys,
-- waits for more just when that does, and writes outside of its buffer just when that overruns.
pub read_line-edits :
    (e : Editor) (keys : List ℕ)
    → e.history_index < length history
    → result (read_line e keys) ≡ edits typing (held []) e.history_index keys
unfolding read_line
read_line-edits e keys small =
    edit-edits keys typing (held []) e.line_buffer e.history_index e.written (tt, omega arith) small
