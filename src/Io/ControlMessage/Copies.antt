-- ===== src/Io/ControlMessage/Copies.antt =====
-- src/io/message.rs: what `fill_msg_out_…` copied in, `from_msg_in_…` copies out.
use native.Mathlib.Nat
use mathlib.Core.List.{append_assoc}
use cl_async.Base.{
  ℕ, ◌+◌, ◌*◌, ◌/◌, ◌≡◌, refl, sym, ap, ap₂, ◌∙◌, true, ◌==◌, ==_iff, List, [], ◌∷◌, ◌++◌, length,
  length-append, drop, drop-append, All, ok, arith,
}
use cl_async.Io.ControlMessage.{
  Plain, RawControlMessageIn, RawControlMessageOut, write_all, read_all, from_msg_in_multi,
  from_msg_in_single,
}

-- A message as it arrives, with whatever lies behind it.
abbrev pub arrived : RawControlMessageOut → List ℕ → RawControlMessageIn
arrived raw rest = record {
  message_level = raw.message_level;
  message_type = raw.message_type;
  data_len = length raw.payload;
  data_ptr = raw.payload ++ rest;
}

module _ {A : Type 0} (P : Plain A) where
  drop-write : (a : A) (rest : List ℕ) → P.IsValue a → drop P.size (P.write a ++ rest) ≡ rest
  drop-write a rest v =
      ap (λ n. drop n (P.write a ++ rest)) (sym (P.length-write a v)) ∙ drop-append (P.write a) rest

  length-write_all : (xs : List A) → All P.IsValue xs → length (write_all P xs) ≡ length xs * P.size
  unfolding write_all
  length-write_all [] h = grind arith
  length-write_all (x ∷ xs) (v, h) =
      length-append (P.write x) (write_all P xs)
      ∙ ap₂ (λ a b. a + b) (P.length-write x v) (length-write_all xs h)
      ∙ grind arith

  read_all-write_all :
      (xs : List A) (rest : List ℕ)
      → All P.IsValue xs
      → read_all P (length xs) (write_all P xs ++ rest) ≡ xs
  unfolding read_all write_all
  read_all-write_all [] rest h = refl
  read_all-write_all (x ∷ xs) rest (v, h) =
      let later = write_all P xs ++ rest in
      rw
        (
          append_assoc (P.write x) (write_all P xs) rest,
          P.read-write x later v,
          drop-write x later v,
        )
        (ap (λ l. x ∷ l) (read_all-write_all xs rest h))

  pub from_msg_in_single-arrived :
      (level type : ℕ) (a : A) (rest : List ℕ)
      → P.IsValue a
      → from_msg_in_single P (record {
        message_level = level;
        message_type = type;
        data_len = length (P.write a);
        data_ptr = P.write a ++ rest;
      })
        ≡ ok a
  unfolding from_msg_in_single
  from_msg_in_single-arrived level type a rest v =
      rw ((==_iff (length (P.write a)) P.size).1 (P.length-write a v))
        (ap ok (P.read-write a rest v))

  count-write_all : (xs : List A) → All P.IsValue xs → length (write_all P xs) / P.size ≡ length xs
  count-write_all xs h =
      let e : length (write_all P xs) ≡ 0 + length xs * P.size =
        length-write_all xs h ∙ grind arith in
      ap (λ n. n / P.size) e
      ∙ Nat.add-mul-div_right 0 (length xs) P.size-pos
      ∙ grind (arith, Nat.zero-div P.size)

  pub from_msg_in_multi-arrived :
      (level type : ℕ) (xs : List A) (rest : List ℕ)
      → All P.IsValue xs
      → from_msg_in_multi P
          (record {
            message_level = level;
            message_type = type;
            data_len = length (write_all P xs);
            data_ptr = write_all P xs ++ rest;
          })
          (length (write_all P xs) / P.size)
        ≡ ok xs
  unfolding from_msg_in_multi
  from_msg_in_multi-arrived level type xs rest h =
      let whole : (length (write_all P xs) == P.size * length xs) ≡ true =
        (==_iff _ _).1 (length-write_all xs h ∙ grind arith) in
      rw (count-write_all xs h, whole) (ap ok (read_all-write_all xs rest h))
