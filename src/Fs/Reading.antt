-- ===== src/Fs/Reading.antt =====
-- Reads of a file of the root one after the other give its bytes in order.
use xmertl.Base.{
  ◌^◌, ℕ, zero, suc, ◌+◌, ◌*◌, ◌<◌, ◌≡◌, ◌∙◌, sym, ap, refl, min, false, Option, none, some, List,
  [], ◌∷◌, ◌++◌, inl, inr, arith,
}
use xmertl.Base.{
  leb, Bool-cases, length, get_elem?, get_or, take, drop, get_elem?-set_self, length-take,
  length-drop, take-min, drop-min, take_all, drop_all,
}
use native.Mathlib.Nat.{zero-add, suc-add, suc-mul, zero-mul}
use xmertl.Base.Ints.{pos}
use xmertl.Fs.{File, Fs, Dev, nodev, checkfd, read_sys, max_files}
use xmertl.Fs.Devices.{rootread, rest_of, advance}

take-nil : (n : ℕ) → take {A = ℕ} n [] ≡ []
take-nil n = take_all n [] (omega arith)

drop-nil : (n : ℕ) → drop {A = ℕ} n [] ≡ []
drop-nil n = drop_all n [] (omega arith)

drop-drop : (p n : ℕ) (xs : List ℕ) → drop n (drop p xs) ≡ drop (p + n) xs
drop-drop zero n xs = rw (zero-add n) refl
drop-drop (suc p) n [] = drop-nil n ∙ sym (drop-nil (suc p + n))
drop-drop (suc p) n (x ∷ xs) = rw (suc-add p n) (drop-drop p n xs)

take-add : (a b : ℕ) (xs : List ℕ) → take a xs ++ take b (drop a xs) ≡ take (a + b) xs
take-add zero b xs = rw (zero-add b) refl
take-add (suc a) b [] = take-nil b ∙ sym (take-nil (suc a + b))
take-add (suc a) b (x ∷ xs) = rw (suc-add a b) (ap (◌∷◌ x) (take-add a b xs))

-- What is left of the text, and not more than `n` of it.
rest_of_lem : (text : List ℕ) (n p : ℕ) → rest_of text n p ≡ take n (drop p text)
unfolding rest_of
rest_of_lem text n p = elim (Bool-cases (leb (length text) p)) [
  | inl past ↦
      let over : drop p text ≡ [] = drop_all p text (ground (arith, past)) in
      rw (rest_of, past, over) (sym (take-nil n))
  | inr more ↦
      rw (rest_of, more) (take-min n _ (drop p text) (ground (arith, more, length-drop p text)))
]

held_lem :
    (files : List File) (i : ℕ) (f : File)
    → get_elem? files i ≡ some f
    → (i < length files) × (get_or files i nodev ≡ f)
held_lem [] i f e = absurd (ground arith)
held_lem (g ∷ files) zero f e = (omega arith, ground (arith, e))
held_lem (g ∷ files) (suc i) f e =
    let more = held_lem files i f e in (omega (arith, more.0), more.1)

-- `k` reads of `n` bytes each.
unfoldable pub gather : List Dev → ℕ → ℕ → ℕ → Fs → Option (List ℕ × Fs)
gather devtab fd n zero s = some ([], s)
gather devtab fd n (suc k) s = elim (read_sys devtab (pos fd) n s) [
  | none ↦ none
  | some ((ret, bytes), after) ↦ elim (gather devtab fd n k after) [
    | none ↦ none
    | some (more, last) ↦ some (bytes ++ more, last)
  ]
]

module _ (contents : ℕ → List ℕ) (devtab : List Dev) (d : Dev) (t fd n : ℕ) (small : n < 2 ^ 31)
    (inside : fd < max_files) (there : get_elem? devtab t ≡ some d)
    (root : d.read ≡ rootread contents) where
  -- One read, and the place at which the next one starts.
  read_sys-rootread :
      (s : Fs) (f : File)
      → get_elem? s.files fd ≡ some f
      → f.type ≡ some t
      → (s' : Fs) × (f' : File) × (read_sys devtab (pos fd) n s
          ≡ some (
            (
              pos (length (take n (drop f.pos (contents f.qid)))),
              take n (drop f.pos (contents f.qid)),
            ),
            s',
          ))
        × (get_elem? s'.files fd ≡ some f')
        × (f'.type ≡ some t)
        × (f'.qid ≡ f.qid)
        × (drop f'.pos (contents f.qid) ≡ drop n (drop f.pos (contents f.qid)))
  unfolding read_sys checkfd rootread
  read_sys-rootread s f held kind =
      let text = contents f.qid in
      let low : leb max_files fd ≡ false = ground (arith, inside) in
      let same : get_or s.files fd nodev ≡ f = (held_lem s.files fd f held).1 in
      let check : checkfd (pos fd) s.files ≡ some (fd, f, t) =
        rw (checkfd, held) (simp (kind, low)) in
      let whole : leb (2 ^ 31) n ≡ false = ground (arith, small) in
      elim (Bool-cases (leb (length text) f.pos)) [
        | inl past ↦
            let over : drop f.pos text ≡ [] = drop_all f.pos text (ground (arith, past)) in
            (
              s,
              f,
              rw (read_sys, check, there, root, rootread, same, past, over, take-nil n) refl,
              held,
              kind,
              refl,
              rw over (sym (drop-nil n)),
            )
        | inr more ↦
            let bytes = take n (drop f.pos text) in
            let count = length bytes in
            let f' : File = record f { pos = f.pos + count } in
            let size : count ≡ min n (length (drop f.pos text)) = length-take n (drop f.pos text) in
            (
              advance fd count s,
              f',
              rw
                  (
                    read_sys,
                    check,
                    there,
                    root,
                    rootread,
                    same,
                    more,
                    whole,
                    rest_of_lem text n f.pos,
                  )
                  refl,
              rw same (get_elem?-set_self s.files fd f' (held_lem s.files fd f held).0),
              kind,
              refl,
              sym (drop-drop f.pos count text) ∙ drop-min n count (drop f.pos text) size,
            )
      ]

  -- When a descriptor below 128 is open on a device that reads files of the root, k calls of
  -- read_sys of n bytes, with n below 2 ^ 31, give the next k * n bytes of the file, or all that are
  -- left of it.
  pub gather_lem :
      (k : ℕ) (s : Fs) (f : File)
      → get_elem? s.files fd ≡ some f
      → f.type ≡ some t
      → (s' : Fs) × (gather devtab fd n k s ≡ some (take (k * n) (drop f.pos (contents f.qid)), s'))
  unfolding gather
  gather_lem zero s f held kind = (s, rw (zero-mul n) refl)
  gather_lem (suc k) s f held kind =
      let (after, f', e, held', kind', same, place) = read_sys-rootread s f held kind in
      let (last, e') = gather_lem k after f' held' kind' in
      let text = contents f.qid in
      let count : n + k * n ≡ suc k * n = omega (arith, suc-mul k n) in
      let sum : take n (drop f.pos text) ++ take (k * n) (drop n (drop f.pos text))
          ≡ take (suc k * n) (drop f.pos text) =
        take-add n (k * n) (drop f.pos text) ∙ ap (λ c. take c (drop f.pos text)) count in
      (last, rw (gather, e, e', same, place) (ap (λ b. some (b, last)) sum))
