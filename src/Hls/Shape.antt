-- ===== src/Hls/Shape.antt =====
-- Pending starts and streams under changes in place, and how many of them there are.
use Prim.Native.String.{String}
use cryp.Prelude.{
  ◌≡◌, ◌↔◌, refl, ap, ℕ, suc, ◌+◌, ◌==◌, length, Bool, true, false, ◌||◌, not, none, List, [], ◌∷◌,
  map, if◌then◌else◌, arith, All,
}
use cryp.GoMap.{str_eq, str_eq_iff, lookup, Every, IsMap}
use cryp.GoText.{Text, text_eq}
use cryp.Hls.{HlsKey, HlsPending, HlsStream, Owners, key_eq, each_stream}

pub text_eq_iff : (a b : Text) → (text_eq a b ≡ true) ↔ (a ≡ b)
unfolding text_eq
text_eq_iff [] [] = ground arith
text_eq_iff [] (d ∷ ds) = ground arith
text_eq_iff (c ∷ cs) [] = ground arith
text_eq_iff (c ∷ cs) (d ∷ ds) = ground (arith, text_eq_iff cs ds)

pub key_eq_refl : (k : HlsKey) → key_eq k k ≡ true
unfolding key_eq
key_eq_refl k =
    ground (arith, str_eq_iff k.vault_id k.vault_id, text_eq_iff k.virtual_path k.virtual_path)

pub key_eq_sym : (a b : HlsKey) → key_eq a b ≡ false → key_eq b a ≡ false
unfolding key_eq
key_eq_sym a b h = ground (
  arith,
  str_eq_iff a.vault_id b.vault_id,
  str_eq_iff b.vault_id a.vault_id,
  text_eq_iff a.virtual_path b.virtual_path,
  text_eq_iff b.virtual_path a.virtual_path,
)

-- Somebody wants the stream, or it is being stopped.
abbrev pub IsManned : Bool → Owners → Type 0
IsManned stopping owners = stopping || not (length owners == 0) ≡ true

-- A change of a pending start that keeps what it is, and neither takes back a stop nor leaves the start
-- to nobody.
pub record IsGentle (change : HlsPending → HlsPending) : Type 0 where
  pub same_key : (p : HlsPending) → (change p).key ≡ p.key
  pub same_id : (p : HlsPending) → (change p).stream_id ≡ p.stream_id
  pub stays : (p : HlsPending) → p.stop_requested ≡ true → (change p).stop_requested ≡ true
  pub manned :
      (p : HlsPending)
      → IsManned p.stop_requested p.owners
      → IsManned (change p).stop_requested (change p).owners

-- The same of a change of a stream.
pub record IsGentleStream (change : String → HlsStream → HlsStream) : Type 0 where
  pub same_key : (id : String) (t : HlsStream) → (change id t).key ≡ t.key
  pub same_vault : (id : String) (t : HlsStream) → (change id t).vault_id ≡ t.vault_id
  pub same_path : (id : String) (t : HlsStream) → (change id t).virtual_path ≡ t.virtual_path
  pub same_finished : (id : String) (t : HlsStream) → (change id t).finished ≡ t.finished
  pub manned :
      (id : String) (t : HlsStream)
      → IsManned t.stop_requested t.owners
      → IsManned (change id t).stop_requested (change id t).owners

-- No two pending starts have the same key or the same stream id.
abbrev pub IsOther : HlsPending → HlsPending → Type 0
IsOther p q = (str_eq p.stream_id q.stream_id ≡ false) × (key_eq p.key q.key ≡ false)

abbrev pub IsApart : List HlsPending → Type 0
IsApart [] = Unit {0}
IsApart (p ∷ ps) = All (IsOther p) ps × IsApart ps

-- The streams whose process has not ended.
unfoldable pub running : List (String × HlsStream) → ℕ
running [] = 0
running ((id, stream) ∷ others) =
    let rest = running others in if stream.finished then rest else rest + 1

module _ (change : HlsPending → HlsPending) (h : IsGentle change) where
  IsOther-map :
      (p : HlsPending) (ps : List HlsPending)
      → All (IsOther p) ps
      → All (IsOther (change p)) (map change ps)
  IsOther-map p [] a = tt
  IsOther-map p (q ∷ qs) a =
      (rw (h.same_id p, h.same_id q, h.same_key p, h.same_key q) a.0, IsOther-map p qs a.1)

  pub IsApart-map : (ps : List HlsPending) → IsApart ps → IsApart (map change ps)
  IsApart-map [] a = tt
  IsApart-map (p ∷ ps) a = (IsOther-map p ps a.0, IsApart-map ps a.1)

-- What is true of every pending start stays true.
pub All-map :
    (change : HlsPending → HlsPending) (P Q : HlsPending → Type 0)
    → ((p : HlsPending) → P p → Q (change p))
    → (ps : List HlsPending) → All P ps
    → All Q (map change ps)
All-map change P Q step [] a = tt
All-map change P Q step (p ∷ ps) a = (step p a.0, All-map change P Q step ps a.1)

pub length-map :
    (change : HlsPending → HlsPending) (ps : List HlsPending) → length (map change ps) ≡ length ps
length-map change [] = refl
length-map change (p ∷ ps) = ap suc (length-map change ps)

module _ (change : String → HlsStream → HlsStream) where
  -- A missing stream stays missing.
  pub lookup-each_stream :
      (id : String) (m : List (String × HlsStream))
      → lookup id m ≡ none
      → lookup id (each_stream change m) ≡ none
  unfolding lookup each_stream
  lookup-each_stream id [] h = refl
  lookup-each_stream id ((j, t) ∷ m) h = ground (arith, lookup-each_stream id m)

  pub Every-each_stream :
      (P Q : String → HlsStream → Type 0)
      → ((id : String) (t : HlsStream) → P id t → Q id (change id t))
      → (m : List (String × HlsStream)) → Every P m
      → Every Q (each_stream change m)
  unfolding each_stream
  Every-each_stream P Q step [] a = tt
  Every-each_stream P Q step ((id, t) ∷ m) a = (step id t a.0, Every-each_stream P Q step m a.1)

  pub IsMap-each_stream : (m : List (String × HlsStream)) → IsMap m → IsMap (each_stream change m)
  unfolding each_stream
  IsMap-each_stream [] a = tt
  IsMap-each_stream ((id, t) ∷ m) a = (
    Every-each_stream (λ j _. str_eq j id ≡ false) (λ j _. str_eq j id ≡ false) (λ j t h. h) m a.0,
    IsMap-each_stream m a.1,
  )

  pub running-each_stream :
      ((id : String) (t : HlsStream) → (change id t).finished ≡ t.finished)
      → (m : List (String × HlsStream)) → running (each_stream change m) ≡ running m
  unfolding running each_stream
  running-each_stream same [] = refl
  running-each_stream same ((id, t) ∷ m) = ground (arith, same id t, running-each_stream same m)
