-- ===== src/Room/Snapshot.antt =====
-- `Room::remotePublications` of src/room.cpp: what the remote participants publish, up to a number.
use client_sdk_cpp.Prelude.{
  ℕ, zero, suc, ◌≤◌, Bool, true, false, List, [], ◌∷◌, ◌++◌, String, if◌then◌else◌, ◌==◌, ltb,
  length, take, min, ◌≡◌, refl, sym, ap, ◌∙◌, arith, append_assoc, append-nil, length-append,
  Bool-cases, inl, inr, take_all, if_rule,
}
use client_sdk_cpp.Room.Roster.{Roster, Participant, Publication}

pub record Entry : Type 0 where
  pub participant : Participant
  pub publication : Publication

pub record RemotePublicationSnapshot : Type 0 where
  pub entries : List Entry
  pub truncated : Bool

-- The loop over a participant's publications: it goes on, or the function returns.
abbrev pub add_publications :
    ℕ
    → Participant
    → List (String × Publication)
    → RemotePublicationSnapshot
    → RemotePublicationSnapshot
add_publications maximum p [] s = s
add_publications maximum p ((sid, publication) ∷ rest) s =
    let next = add_publications maximum p rest (record s {
      entries = s.entries ++ record { participant = p; publication = publication } ∷ [];
    }) in
    if length s.entries == maximum then record s { truncated = true } else next

abbrev pub add_participants :
    ℕ → List (String × Participant) → RemotePublicationSnapshot → RemotePublicationSnapshot
add_participants maximum [] s = s
add_participants maximum ((identity, p) ∷ rest) s =
    let s' = add_publications maximum p p.publications s in
    let next = add_participants maximum rest s' in if s'.truncated then s' else next

unfoldable pub remote_publications : ℕ → Roster → RemotePublicationSnapshot
remote_publications maximum r =
    add_participants (min maximum 4096) r.remote_participants
      (record { entries = []; truncated = false })

-- All publications, participant by participant.
abbrev pub of_participant : Participant → List (String × Publication) → List Entry
of_participant p [] = []
of_participant p ((sid, publication) ∷ rest) =
    record { participant = p; publication = publication } ∷ of_participant p rest

abbrev pub all_publications : List (String × Participant) → List Entry
all_publications [] = []
all_publications ((identity, p) ∷ rest) = of_participant p p.publications ++ all_publications rest

-- The first `n` of the publications, and whether there are more.
abbrev pub first : ℕ → List Entry → RemotePublicationSnapshot
first n all = record { entries = take n all; truncated = ltb n (length all) }

take_more : (n : ℕ) (xs ys : List Entry) → n ≤ length xs → take n (xs ++ ys) ≡ take n xs
take_more zero xs ys h = refl
take_more (suc n) [] ys h = absurd (omega arith)
take_more (suc n) (x ∷ xs) ys h = ap (◌∷◌ x) (take_more n xs ys (omega arith))

first_full :
    (n : ℕ) (xs : List Entry) (y : Entry) (ys : List Entry)
    → length xs ≡ n
    → first n (xs ++ y ∷ ys) ≡ record { entries = xs; truncated = true }
first_full n xs y ys e =
    let a : take n (xs ++ y ∷ ys) ≡ xs =
      take_more n xs (y ∷ ys) (omega arith) ∙ take_all n xs (omega arith) in
    let b : ltb n (length (xs ++ y ∷ ys)) ≡ true = ground (arith, length-append xs (y ∷ ys)) in
    ap (λ t. record { entries = t; truncated = ltb n (length (xs ++ y ∷ ys)) }) a
    ∙ ap (λ t. record { entries = xs; truncated = t }) b

first_all :
    (n : ℕ) (xs : List Entry)
    → length xs ≤ n
    → first n xs ≡ record { entries = xs; truncated = false }
first_all n xs h =
    let none_left : ltb n (length xs) ≡ false = ground arith in
    ap (λ t. record { entries = t; truncated = ltb n (length xs) }) (take_all n xs h)
    ∙ ap (λ t. record { entries = xs; truncated = t }) none_left

first_more :
    (n : ℕ) (xs ys : List Entry) → ltb n (length xs) ≡ true → first n (xs ++ ys) ≡ first n xs
first_more n xs ys h =
    let more : ltb n (length (xs ++ ys)) ≡ ltb n (length xs) =
      ground (arith, length-append xs ys) in
    ap (λ t. record { entries = t; truncated = ltb n (length (xs ++ ys)) })
      (take_more n xs ys (ground arith))
    ∙ ap (λ t. record { entries = take n xs; truncated = t }) more

abbrev gathered : List Entry → RemotePublicationSnapshot
gathered xs = record { entries = xs; truncated = false }

add_publications_lem :
    (n : ℕ) (p : Participant) (publications : List (String × Publication)) (xs : List Entry)
    → length xs ≤ n
    → add_publications n p publications (gathered xs)
      ≡ first n (xs ++ of_participant p publications)
add_publications_lem n p [] xs h = sym (ap (first n) (append-nil xs) ∙ first_all n xs h)
add_publications_lem n p ((sid, q) ∷ rest) xs h = elim (Bool-cases (length xs == n)) [
  | inl full ↦ rw full (sym (first_full n xs _ (of_participant p rest) (ground arith)))
  | inr room ↦ rw room (
      add_publications_lem n p rest (xs ++ record { participant = p; publication = q } ∷ [])
        (ground (arith, length-append xs (record { participant = p; publication = q } ∷ [])))
      ∙ ap (first n) (
          append_assoc xs (record { participant = p; publication = q } ∷ [])
            (of_participant p rest)))
]

add_participants_lem :
    (n : ℕ) (participants : List (String × Participant)) (xs : List Entry)
    → length xs ≤ n
    → add_participants n participants (gathered xs) ≡ first n (xs ++ all_publications participants)
add_participants_lem n [] xs h = sym (ap (first n) (append-nil xs) ∙ first_all n xs h)
add_participants_lem n ((identity, p) ∷ rest) xs h =
    let ys = xs ++ of_participant p p.publications in
    let published = of_participant p p.publications in
    let all = all_publications rest in
    let same = ap (first n) (append_assoc xs published all) in
    rw (add_publications_lem n p p.publications xs h) (
      if_rule (λ x. x ≡ first n (xs ++ (published ++ all))) (ltb n (length ys))
        (λ t. sym (first_more n ys all t) ∙ same)
        (λ f.
          let fits : length ys ≤ n = ground arith in
          ap (add_participants n rest) (first_all n ys fits)
          ∙ add_participants_lem n rest ys fits
          ∙ same))

-- A snapshot has the first of all that the remote participants publish, up to the number that was
-- asked for and at most 4096, and says that it is truncated exactly if there is more.
remote_publications_lem :
    (maximum : ℕ) (r : Roster)
    → remote_publications maximum r
      ≡ first (min maximum 4096) (all_publications r.remote_participants)
unfolding remote_publications
remote_publications_lem maximum r =
    add_participants_lem (min maximum 4096) r.remote_participants [] (omega arith)
