-- ===== src/DorkWorker/Snapshot/RoundTrip/Writes.antt =====
-- What a list of writes leaves in the buffer.
use sttork.Base.{
  ℕ, ◌+◌, ◌≤◌, ◌≡◌, refl, sym, ap, List, [], ◌∷◌, ◌++◌, length, length-append, append_assoc,
  append-nil, arith,
}
use sttork.Base.Outcome.{ok, ◌>>=◌}
use sttork.DorkWorker.Snapshot.Writer.{Field, field_bytes, write, write_all, create, finish}

abbrev pub fields_bytes : List Field → List ℕ
fields_bytes [] = []
fields_bytes (f ∷ fs) = field_bytes f ++ fields_bytes fs

pub fields_bytes-append :
    (fs gs : List Field) → fields_bytes (fs ++ gs) ≡ fields_bytes fs ++ fields_bytes gs
fields_bytes-append [] gs = refl
fields_bytes-append (f ∷ fs) gs =
    rw (fields_bytes-append fs gs)
      (sym (append_assoc (field_bytes f) (fields_bytes fs) (fields_bytes gs)))

write-fits :
    (f : Field) (n : ℕ) (bs : List ℕ)
    → length bs + length (field_bytes f) ≤ n
    → write f (record { byte_length = n; written = bs })
      ≡ ok (record { byte_length = n; written = bs ++ field_bytes f })
unfolding write
write-fits f n bs h = ground arith

write_all-fits :
    (fs : List Field) (n : ℕ) (bs : List ℕ)
    → length bs + length (fields_bytes fs) ≤ n
    → write_all fs (record { byte_length = n; written = bs })
      ≡ ok (record { byte_length = n; written = bs ++ fields_bytes fs })
unfolding write_all
write_all-fits [] n bs h = rw (append-nil bs) refl
write_all-fits (f ∷ fs) n bs h =
    rw (write-fits f n bs (omega (arith, length-append (field_bytes f) (fields_bytes fs)))) (
      rw
        (
          write_all-fits fs n (bs ++ field_bytes f) (
              omega (
                arith,
                length-append (field_bytes f) (fields_bytes fs),
                length-append bs (field_bytes f),
              )),
          append_assoc bs (field_bytes f) (fields_bytes fs),
        )
        refl)

finish-full :
    (n : ℕ) (bs : List ℕ)
    → length bs ≡ n
    → finish (record { byte_length = n; written = bs }) ≡ ok bs
unfolding finish
finish-full n bs h = ground arith

-- A buffer that is filled to its length is what the writer returns.
pub finish-fields :
    (fs : List Field) (n : ℕ)
    → length (fields_bytes fs) ≡ n
    → (write_all fs (create n) >>= finish) ≡ ok (fields_bytes fs)
unfolding create
finish-fields fs n h =
    rw (write_all-fits fs n [] (omega (arith, h))) (finish-full n (fields_bytes fs) h)

-- The bytes of the fields, then `rest`.
abbrev pub put : List Field → List ℕ → List ℕ
put [] rest = rest
put (f ∷ fs) rest = field_bytes f ++ put fs rest

pub put-append : (fs gs : List Field) (rest : List ℕ) → put (fs ++ gs) rest ≡ put fs (put gs rest)
put-append [] gs rest = refl
put-append (f ∷ fs) gs rest = ap (λ (t : List ℕ). field_bytes f ++ t) (put-append fs gs rest)

pub fields_bytes-put : (fs : List Field) → fields_bytes fs ≡ put fs []
fields_bytes-put [] = refl
fields_bytes-put (f ∷ fs) = ap (λ (t : List ℕ). field_bytes f ++ t) (fields_bytes-put fs)

pub put-rest : (fs : List Field) (rest : List ℕ) → put fs rest ≡ put fs [] ++ rest
put-rest [] rest = refl
put-rest (f ∷ fs) rest = rw (put-rest fs rest) (sym (append_assoc (field_bytes f) (put fs []) rest))
