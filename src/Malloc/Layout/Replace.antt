-- ===== src/Malloc/Layout/Replace.antt =====
-- The rule by which each operation is proved: a change inside one stretch of the heap, together with
-- the two links that point into it, replaces the items of that stretch.
use cs.Common.{
  ℕ, ◌+◌, ◌≤◌, ◌<◌, ◌≡◌, sym, subst, ap, ◌∙◌, ◌≢◌, ◌⊎◌, inl, inr, List, [], ◌∷◌, ◌++◌, arith,
}
use cs.Malloc.Memory.{Memory, next_of, prev_of}
use cs.Malloc.Layout.Links.{
  Item, used, free, gap, first_free, last_free, end_of, Holds, IsHeap, HasNone, HasSome, le-end_of,
  end_of-append, first_free-append, last_free-append,
}
use cs.Malloc.Layout.Frame.{ends, Holds-append, append-Holds}
use cs.Malloc.Layout.Relink.{Holds-relink_next, Holds-relink_prev}

-- The links between a row and what stands before and behind it.
link_next :
    (m : Memory) (p prev : ℕ) (its : List Item) (stop : ℕ)
    → Holds m p prev its stop
    → m (next_of prev) ≡ first_free p its stop
    → m (next_of (last_free p prev its)) ≡ stop
link_next m p prev [] stop h e = e
link_next m p prev (used n ∷ its) stop h e = link_next m (p + n) prev its stop h.1 e
link_next m p prev (gap n ∷ its) stop h e = link_next m (p + n) prev its stop h.1 e
link_next m p prev (free n ∷ its) stop h e = link_next m (p + n) p its stop h.3 h.2

link_prev :
    (m : Memory) (p prev : ℕ) (its : List Item) (stop : ℕ)
    → Holds m p prev its stop
    → m (prev_of stop) ≡ last_free p prev its
    → m (prev_of (first_free p its stop)) ≡ prev
link_prev m p prev [] stop h e = e
link_prev m p prev (used n ∷ its) stop h e = link_prev m (p + n) prev its stop h.1 e
link_prev m p prev (gap n ∷ its) stop h e = link_prev m (p + n) prev its stop h.1 e
link_prev m p prev (free n ∷ its) stop h e = h.1

-- A stretch `mid` of the heap between `xs` and `ys`: where it starts and ends, and its neighbours in
-- the free list.
module _ (sentinel base : ℕ) (xs : List Item) where
  abbrev pub start_of : ℕ
  start_of = end_of base xs

  abbrev pub before : ℕ
  before = last_free base sentinel xs

  abbrev pub stop_of : List Item → ℕ
  stop_of mid = end_of start_of mid

  abbrev pub behind : List Item → List Item → ℕ
  behind mid ys = first_free (stop_of mid) ys sentinel

-- What a heap says of the stretch. The list's neighbours lie outside it, with their link words.
pub record IsStretch (m : Memory) (sentinel base : ℕ) (xs mid ys : List Item) : Type 0 where
  pub left :
      Holds m base sentinel xs
        (first_free (start_of sentinel base xs) mid (behind sentinel base xs mid ys))
  pub middle :
      Holds m
        (start_of sentinel base xs)
        (before sentinel base xs)
        mid
        (behind sentinel base xs mid ys)
  pub right :
      Holds m
        (stop_of sentinel base xs mid)
        (last_free (start_of sentinel base xs) (before sentinel base xs) mid)
        ys
        sentinel
  pub next_before :
      m (next_of (before sentinel base xs))
      ≡ first_free (start_of sentinel base xs) mid (behind sentinel base xs mid ys)
  pub prev_behind :
      m (prev_of (behind sentinel base xs mid ys))
      ≡ last_free (start_of sentinel base xs) (before sentinel base xs) mid
  pub before_is :
      (before sentinel base xs ≡ sentinel)
      ⊎ ((base ≤ before sentinel base xs)
          × (before sentinel base xs + 48 ≤ start_of sentinel base xs))
  pub behind_is :
      (behind sentinel base xs mid ys ≡ sentinel)
      ⊎ ((stop_of sentinel base xs mid ≤ behind sentinel base xs mid ys)
          × (behind sentinel base xs mid ys + 48 ≤ end_of (stop_of sentinel base xs mid) ys))
  pub sentinel_outside :
      (sentinel + 32 ≤ base) ⊎ (end_of (stop_of sentinel base xs mid) ys ≤ sentinel)
  pub stop_fits : end_of (stop_of sentinel base xs mid) ys < 18446744073709551616

last_is :
    (s p : ℕ) (its : List Item)
    → HasNone p its ⊎ HasSome p its
    → (last_free p s its ≡ s) ⊎ ((p ≤ last_free p s its) × (last_free p s its + 48 ≤ end_of p its))
last_is s p its (inl n) = inl (n.last s)
last_is s p its (inr n) =
    inr (omega (arith, n.last s 0, n.last_ge), omega (arith, n.last s 0, n.last_le))

first_is :
    (s p : ℕ) (its : List Item)
    → HasNone p its ⊎ HasSome p its
    → (first_free p its s ≡ s)
      ⊎ ((p ≤ first_free p its s) × (first_free p its s + 48 ≤ end_of p its))
first_is s p its (inl n) = inl (n.first s)
first_is s p its (inr n) =
    inr (omega (arith, n.first s 0, n.first_ge), omega (arith, n.first s 0, n.first_le))

pub stretch :
    (m : Memory) (s b : ℕ) (xs mid ys : List Item)
    → IsHeap m s b (xs ++ (mid ++ ys))
    → IsStretch m s b xs mid ys
stretch m s b xs mid ys h =
    let c = end_of b xs in
    let d = end_of c mid in
    let outer = Holds-append m b s xs (mid ++ ys) s h.holds in
    let inner = Holds-append m c (last_free b s xs) mid ys s outer.1 in
    let first = first_free-append c mid ys s in
    let last = last_free-append b s xs (mid ++ ys) ∙ last_free-append c (last_free b s xs) mid ys in
    let end = end_of-append b xs (mid ++ ys) ∙ end_of-append c mid ys in
    let left_ends = ends m b s xs (first_free c (mid ++ ys) s) outer.0 in
    let right_ends = ends m d (last_free c (last_free b s xs) mid) ys s inner.1 in
    let left : Holds m b s xs (first_free c mid (first_free d ys s)) = rw first at outer.0 in
    record {
      left = left;
      middle = inner.0;
      right = inner.1;
      next_before =
          link_next m b s xs (first_free c mid (first_free d ys s)) left
            (h.head ∙ first_free-append b xs (mid ++ ys) s ∙ ap (first_free b xs) first);
      prev_behind = link_prev m d (last_free c (last_free b s xs) mid) ys s inner.1 (h.tail ∙ last);
      before_is = last_is s b xs left_ends;
      behind_is = first_is s d ys right_ends;
      sentinel_outside = omega (arith, h.apart, end);
      stop_fits = omega (arith, h.fits, end);
    }

-- The change, seen from outside: only the stretch and the two link words that point into it differ.
pub record IsReplaced (m m' : Memory) (sentinel base : ℕ) (xs mid mid' ys : List Item)
    : Type 0 where
  pub same :
      (a : ℕ)
      → (a < start_of sentinel base xs) ⊎ (stop_of sentinel base xs mid ≤ a)
      → a ≢ next_of (before sentinel base xs)
      → a ≢ prev_of (behind sentinel base xs mid ys)
      → m' a ≡ m a
  pub set_next :
      m' (next_of (before sentinel base xs))
      ≡ first_free (start_of sentinel base xs) mid' (behind sentinel base xs mid ys)
  pub set_prev :
      m' (prev_of (behind sentinel base xs mid ys))
      ≡ last_free (start_of sentinel base xs) (before sentinel base xs) mid'
  pub stop : stop_of sentinel base xs mid' ≡ stop_of sentinel base xs mid
  pub inside :
      Holds m'
        (start_of sentinel base xs)
        (before sentinel base xs)
        mid'
        (behind sentinel base xs mid ys)

pub head_replaced :
    (m m' : Memory) (s b : ℕ) (xs : List Item) (stop stop' : ℕ)
    → HasNone b xs ⊎ HasSome b xs
    → m (next_of s) ≡ first_free b xs stop
    → m' (next_of (last_free b s xs)) ≡ stop'
    → (s ≢ last_free b s xs → m' (next_of s) ≡ m (next_of s))
    → (s + 32 ≤ b) ⊎ (end_of b xs ≤ s)
    → m' (next_of s) ≡ first_free b xs stop'
head_replaced m m' s b xs stop stop' (inl n) h set same out =
    ap (λ q. m' (next_of q)) (sym (n.last s)) ∙ set ∙ sym (n.first stop')
head_replaced m m' s b xs stop stop' (inr n) h set same out =
    same (omega (arith, n.last s 0, n.last_ge, n.last_le)) ∙ h ∙ n.first stop stop'

tail_replaced :
    (m m' : Memory) (s d : ℕ) (ys : List Item) (start start' : ℕ)
    → HasNone d ys ⊎ HasSome d ys
    → m (prev_of s) ≡ last_free d start ys
    → m' (prev_of (first_free d ys s)) ≡ start'
    → (s ≢ first_free d ys s → m' (prev_of s) ≡ m (prev_of s))
    → (s + 32 ≤ d) ⊎ (end_of d ys ≤ s)
    → m' (prev_of s) ≡ last_free d start' ys
tail_replaced m m' s d ys start start' (inl n) h set same out =
    ap (λ q. m' (prev_of q)) (sym (n.first s)) ∙ set ∙ sym (n.last start')
tail_replaced m m' s d ys start start' (inr n) h set same out =
    same (omega (arith, n.first s 0, n.first_ge, n.first_le)) ∙ h ∙ n.last start start'

module _ (m m' : Memory) (s b : ℕ) (xs mid mid' ys : List Item) (st : IsStretch m s b xs mid ys)
    (r : IsReplaced m m' s b xs mid mid' ys) where
  left_replaced : Holds m' b s xs (first_free (start_of s b xs) mid' (behind s b xs mid ys))
  left_replaced =
      let d_ge = le-end_of (end_of b xs) mid in
      let e_ge = le-end_of (stop_of s b xs mid) ys in
      Holds-relink_next m m' b s xs _ _ st.left (omega (arith, st.sentinel_outside, d_ge, e_ge))
        (λ a u v w.
          r.same a (inl v) w (omega (arith, st.behind_is, st.sentinel_outside, d_ge, e_ge)))
        r.set_next

  right_replaced :
      Holds m' (stop_of s b xs mid) (last_free (start_of s b xs) (before s b xs) mid') ys s
  right_replaced =
      let c_ge = le-end_of b xs in
      let d_ge = le-end_of (end_of b xs) mid in
      Holds-relink_prev m m' (stop_of s b xs mid) (last_free (start_of s b xs) (before s b xs) mid)
        _ ys s st.right (omega (arith, st.sentinel_outside, d_ge, c_ge))
        (λ a u v w.
          r.same a (inr u) (omega (arith, st.before_is, st.sentinel_outside, d_ge, c_ge)) w)
        r.set_prev

  -- A word of the sentinel that is not one of the two links.
  sentinel_same :
      (k : ℕ)
      → k ≤ 24
      → s + k ≢ next_of (before s b xs)
      → s + k ≢ prev_of (behind s b xs mid ys)
      → m' (s + k) ≡ m (s + k)
  sentinel_same k le =
      let c_ge = le-end_of b xs in
      let d_ge = le-end_of (end_of b xs) mid in
      let e_ge = le-end_of (stop_of s b xs mid) ys in
      r.same (s + k) (omega (arith, st.sentinel_outside, c_ge, e_ge, d_ge))

  Holds-replaced : Holds m' b s (xs ++ (mid' ++ ys)) s
  Holds-replaced =
      let c = end_of b xs in
      let l = last_free b s xs in
      let first = first_free-append c mid' ys s in
      append-Holds m' b s xs (mid' ++ ys) s
        (subst (Holds m' b s xs)
          (ap (λ p. first_free c mid' (first_free p ys s)) (sym r.stop) ∙ sym first) left_replaced)
        (append-Holds m' c l mid' ys s
          (subst (λ p. Holds m' c l mid' (first_free p ys s)) (sym r.stop) r.inside)
          (subst (λ p. Holds m' p (last_free c l mid') ys s) (sym r.stop) right_replaced))

pub IsHeap-replace :
    (m m' : Memory) (s b : ℕ) (xs mid mid' ys : List Item)
    → IsHeap m s b (xs ++ (mid ++ ys))
    → IsReplaced m m' s b xs mid mid' ys
    → IsHeap m' s b (xs ++ (mid' ++ ys))
IsHeap-replace m m' s b xs mid mid' ys h r =
    let st = stretch m s b xs mid ys h in
    let c = end_of b xs in
    let d = end_of c mid in
    let l = last_free b s xs in
    let first = first_free-append c mid' ys s in
    let end : end_of b (xs ++ (mid' ++ ys)) ≡ end_of d ys =
      end_of-append b xs (mid' ++ ys) ∙ end_of-append c mid' ys ∙ ap (λ p. end_of p ys) r.stop in
    let l_ends = ends m b s xs _ st.left in
    let q_ends = ends m d _ ys s st.right in
    record {
      holds = Holds-replaced m m' s b xs mid mid' ys st r;
      head =
          head_replaced m m' s b xs _ _ l_ends
            (h.head
              ∙ first_free-append b xs (mid ++ ys) s
              ∙ ap (first_free b xs) (first_free-append c mid ys s))
            r.set_next
            (λ ne.
              sentinel_same m m' s b xs mid mid' ys st r 16 (omega arith) (omega arith)
                (omega (arith, st.behind_is, st.sentinel_outside, le-end_of b xs, le-end_of c mid)))
            (omega (arith, st.sentinel_outside, le-end_of c mid, le-end_of d ys))
          ∙ ap (λ p. first_free b xs (first_free c mid' (first_free p ys s))) (sym r.stop)
          ∙ ap (first_free b xs) (sym first)
          ∙ sym (first_free-append b xs (mid' ++ ys) s);
      tail =
          tail_replaced m m' s d ys _ _ q_ends
            (h.tail ∙ last_free-append b s xs (mid ++ ys) ∙ last_free-append c l mid ys) r.set_prev
            (λ ne.
              sentinel_same m m' s b xs mid mid' ys st r 24 (omega arith)
                (omega (arith, st.before_is, st.sentinel_outside, le-end_of c mid, le-end_of d ys))
                (omega arith))
            (omega (arith, st.sentinel_outside, le-end_of b xs, le-end_of c mid))
          ∙ ap (λ p. last_free p (last_free c l mid') ys) (sym r.stop)
          ∙ sym (last_free-append c l mid' ys)
          ∙ sym (last_free-append b s xs (mid' ++ ys));
      apart = omega (arith, st.sentinel_outside, end);
      fits = omega (arith, st.stop_fits, end);
    }
