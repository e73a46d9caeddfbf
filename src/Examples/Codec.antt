-- ===== src/Examples/Codec.antt =====
-- Codecs for records of numbers and texts, in the form that the state functions need.
use galachain_sdk.Base.{
  ℕ, zero, suc, ◌≡◌, refl, ap, Bool, true, false, Option, none, some, List, [], ◌∷◌, ◌++◌, length,
}
use galachain_sdk.Base.Int.{ℤ, pos, negsuc}
use galachain_sdk.Stub.{Bytes}
use galachain_sdk.State.{Serial}
use mathlib.Core.List.{append-nil, append_assoc}

-- A value is written as a prefix of what follows, and read off it.
pub record Codec (A : Type 0) : Type 0 where
  pub write : A → Bytes
  pub read : Bytes → Option (A × Bytes)
  pub read-write : (a : A) (rest : Bytes) → read (write a ++ rest) ≡ some (a, rest)

abbrev bind : {A C : Type 0} → Option A → (A → Option C) → Option C
bind none f = none
bind (some a) f = f a

abbrev read_number : Bytes → Option (ℕ × Bytes)
read_number [] = none
read_number (n ∷ r) = some (n, r)

abbrev pub number : Codec ℕ
number = record { write = λ n. n ∷ []; read = read_number; read-write = λ n r. refl }

module _ {A C : Type 0} (c : Codec A) (d : Codec C) where
  abbrev write_pair : A × C → Bytes
  write_pair (a, b) = c.write a ++ d.write b

  abbrev read_pair : Bytes → Option ((A × C) × Bytes)
  read_pair s = bind (c.read s) (λ x. bind (d.read x.1) (λ y. some ((x.0, y.0), y.1)))

  pub read-write_pair :
      (p : A × C) (rest : Bytes) → read_pair (write_pair p ++ rest) ≡ some (p, rest)
  read-write_pair (a, b) rest =
      rw append_assoc (rw (c.read-write a (d.write b ++ rest)) (rw (d.read-write b rest) refl))

  abbrev pub pair : Codec (A × C)
  pair = record { write = write_pair; read = read_pair; read-write = read-write_pair }

-- along a function with a left inverse
abbrev pub via :
    {A T : Type 0} → Codec A → (f : T → A) (g : A → T) → ((x : T) → g (f x) ≡ x) → Codec T
via c f g e = record {
  write = λ x. c.write (f x);
  read = λ s. bind (c.read s) (λ y. some (g y.0, y.1));
  read-write = λ x rest. rw (c.read-write (f x) rest) (ap (λ t. some (t, rest)) (e x));
}

module _ {A : Type 0} (c : Codec A) where
  abbrev write_all : List A → Bytes
  write_all [] = []
  write_all (x ∷ xs) = c.write x ++ write_all xs

  abbrev read_all : ℕ → Bytes → Option (List A × Bytes)
  read_all zero s = some ([], s)
  read_all (suc n) s = bind (c.read s) (λ x. bind (read_all n x.1) (λ y. some (x.0 ∷ y.0, y.1)))

  pub read_all-write_all :
      (xs : List A) (rest : Bytes) → read_all (length xs) (write_all xs ++ rest) ≡ some (xs, rest)
  read_all-write_all [] rest = refl
  read_all-write_all (x ∷ xs) rest =
      rw append_assoc
        (rw (c.read-write x (write_all xs ++ rest)) (rw (read_all-write_all xs rest) refl))

  abbrev pub list : Codec (List A)
  list = record {
    write = λ xs. length xs ∷ write_all xs;
    read = λ s. bind (read_number s) (λ x. read_all x.0 x.1);
    read-write = read_all-write_all;
  }

  abbrev write_option : Option A → Bytes
  write_option none = 0 ∷ []
  write_option (some a) = 1 ∷ c.write a

  abbrev read_tagged : ℕ → Bytes → Option (Option A × Bytes)
  read_tagged zero s = some (none, s)
  read_tagged (suc _) s = bind (c.read s) (λ x. some (some x.0, x.1))

  pub read-write_option :
      (o : Option A) (rest : Bytes)
      → bind (read_number (write_option o ++ rest)) (λ x. read_tagged x.0 x.1) ≡ some (o, rest)
  read-write_option none rest = refl
  read-write_option (some a) rest = rw (c.read-write a rest) refl

  abbrev pub option : Codec (Option A)
  option = record {
    write = write_option;
    read = λ s. bind (read_number s) (λ x. read_tagged x.0 x.1);
    read-write = read-write_option;
  }

  -- a codec of a whole array, if it reads nothing off the empty one
  abbrev whole_of : Option (A × Bytes) → Option A
  whole_of none = none
  whole_of (some (a, [])) = some a
  whole_of (some (a, _ ∷ _)) = none

  pub whole_of-write : (a : A) → whole_of (c.read (c.write a)) ≡ some a
  whole_of-write a = rw (← append-nil (c.write a)) (rw (c.read-write a []) refl)

  abbrev pub serial : c.read [] ≡ none → (A → Bool) → Serial A
  serial e valid = record {
    serialize = c.write;
    deserialize = λ s. whole_of (c.read s);
    is_valid = valid;
    deserialize-serialize = whole_of-write;
    deserialize-empty = rw e refl;
  }

-- integers, and truth values
abbrev split : ℤ → ℕ × ℕ
split (pos n) = (0, n)
split (negsuc n) = (1, n)

abbrev unsplit : ℕ × ℕ → ℤ
unsplit (zero, n) = pos n
unsplit (suc _, n) = negsuc n

pub unsplit-split : (a : ℤ) → unsplit (split a) ≡ a
unsplit-split (pos n) = refl
unsplit-split (negsuc n) = refl

abbrev pub integer : Codec ℤ
integer = via (pair number number) split unsplit unsplit-split

abbrev bit : Bool → ℕ
bit false = 0
bit true = 1

abbrev unbit : ℕ → Bool
unbit zero = false
unbit (suc _) = true

pub unbit-bit : (b : Bool) → unbit (bit b) ≡ b
unbit-bit true = refl
unbit-bit false = refl

abbrev pub boolean : Codec Bool
boolean = via number bit unbit unbit-bit

abbrev pub text_codec : Codec (List ℕ)
text_codec = list number
