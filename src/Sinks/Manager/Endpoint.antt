-- ===== src/Sinks/Manager/Endpoint.antt =====
-- The two forms of the name of a socket, `ip:port` and `ip:?port`, in
-- backend/srs/sinks/DataWriterOptions.hpp and backend/srs/sinks/Manager.cpp.
use native.Mathlib.Nat.{suc-add}
use srs_control.Base.{
  ℕ, suc, ◌+◌, ◌≡◌, ◌≢◌, refl, ap, ◌∙◌, true, false, List, [], ◌∷◌, ◌++◌, Option, none, some, All,
  arith, length, drop, take-append,
}
use srs_control.Converters.DataConvertOptions.{raw, proto}
use srs_control.Sinks.DataWriterOptions.{udp, find, contains, get_filetype_from_filename}
use srs_control.Sinks.Manager.{convert_str_to_endpoint}

abbrev Without : ℕ → List ℕ → Type 0
Without char = All (λ (x : ℕ). x ≢ char)

find-append :
    (char : ℕ) (xs ys : List ℕ) → Without char xs → find (xs ++ char ∷ ys) char ≡ some (length xs)
find-append char [] ys w = ground arith
find-append char (x ∷ xs) ys w = ground (arith, w.0, find-append char xs ys w.1)

find-none : (char : ℕ) (xs : List ℕ) → Without char xs → find xs char ≡ none
find-none char [] w = refl
find-none char (x ∷ xs) w = ground (arith, w.0, find-none char xs w.1)

find-next :
    (char before : ℕ) (xs ys : List ℕ)
    → before ≢ char
    → Without char xs
    → find (xs ++ before ∷ char ∷ ys) char ≡ some (length xs + 1)
find-next char before [] ys ne w = ground (arith, ne)
find-next char before (x ∷ xs) ys ne w = ground (arith, w.0, find-next char before xs ys ne w.1)

Without-append :
    (char before : ℕ) (xs ys : List ℕ)
    → before ≢ char
    → Without char xs
    → Without char ys
    → Without char (xs ++ before ∷ ys)
Without-append char before [] ys ne w v = (ne, v)
Without-append char before (x ∷ xs) ys ne w v = (w.0, Without-append char before xs ys ne w.1 v)

drop-past : (xs ys : List ℕ) (x : ℕ) → drop (length xs + 1) (xs ++ x ∷ ys) ≡ ys
drop-past [] ys x = refl
drop-past (y ∷ xs) ys x =
    ap (λ n. drop n (y ∷ xs ++ x ∷ ys)) (suc-add (length xs) 1) ∙ drop-past xs ys x

drop-past_two : (xs ys : List ℕ) (x y : ℕ) → drop (length xs + 1 + 1) (xs ++ x ∷ y ∷ ys) ≡ ys
drop-past_two [] ys x y = refl
drop-past_two (z ∷ xs) ys x y =
    ap (λ n. drop n (z ∷ xs ++ x ∷ y ∷ ys)) (more (length xs)) ∙ drop-past_two xs ys x y
  where
    more : (n : ℕ) → suc n + 1 + 1 ≡ suc (n + 1 + 1)
    more n = omega arith

contains-some : (text : List ℕ) (char n : ℕ) → find text char ≡ some n → contains text char ≡ true
unfolding contains
contains-some text char n e = rw (e, contains) refl

contains-none : (text : List ℕ) (char : ℕ) → find text char ≡ none → contains text char ≡ false
unfolding contains
contains-none text char e = rw (e, contains) refl

module _ {ℓ} {Endpoint : Type ℓ} (resolve : (ip port : List ℕ) → Option Endpoint)
    (ip port : List ℕ) where
  -- Of an address without a colon or a question mark and a port without a question mark: the name
  -- `ip:port` is an output of protobuf messages and `ip:?port` one of raw data, and either is
  -- resolved as this address and this port.
  pub convert_str_to_endpoint_lem :
      Without b':' ip
      → Without b'?' ip
      → Without b'?' port
      → (get_filetype_from_filename (ip ++ b':' ∷ port) ≡ (udp, proto))
        × (get_filetype_from_filename (ip ++ b':' ∷ b'?' ∷ port) ≡ (udp, raw))
        × (convert_str_to_endpoint resolve (ip ++ b':' ∷ port) ≡ resolve ip port)
        × (convert_str_to_endpoint resolve (ip ++ b':' ∷ b'?' ∷ port) ≡ resolve ip port)
  unfolding get_filetype_from_filename convert_str_to_endpoint
  convert_str_to_endpoint_lem colon question port_question =
      let none_there =
        find-none b'?' (ip ++ b':' ∷ port)
          (Without-append b'?' b':' ip port (omega arith) question port_question) in
      let there = find-next b'?' b':' ip port (omega arith) question in
      (
        rw
            (
              contains-some _ _ _ (find-append b':' ip port colon),
              contains-none _ _ none_there,
              get_filetype_from_filename,
            )
            refl,
        rw
            (
              contains-some _ _ _ (find-append b':' ip (b'?' ∷ port) colon),
              contains-some _ _ _ there,
              get_filetype_from_filename,
            )
            refl,
        rw
            (
              find-append b':' ip port colon,
              convert_str_to_endpoint,
              none_there,
              take-append ip (b':' ∷ port) (length ip) refl,
              drop-past ip port b':',
            )
            refl,
        rw
            (
              find-append b':' ip (b'?' ∷ port) colon,
              convert_str_to_endpoint,
              there,
              take-append ip (b':' ∷ b'?' ∷ port) (length ip) refl,
              drop-past_two ip port b':' b'?',
            )
            refl,
      )
