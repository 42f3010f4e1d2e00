-- ===== src/LocalParticipant/Publications/Lifecycle.antt =====
-- A published track is found until it is unpublished or gone.
use client_sdk_cpp.Prelude.{ℕ, true, false, List, none, some, String, ◌≡◌, refl, ap, ◌∙◌, arith}
use client_sdk_cpp.Prelude.Assoc.{
  ◌==◌, string_eq, nat_eq, lookup, insert, erase, lookup-insert_self, lookup-erase_self,
  lookup-insert, lookup-erase,
}
use client_sdk_cpp.LocalParticipant.Publications.{
  LocalTrack, Publications, done, gives, lock, set_publication, local_track_publication,
  publish_track, unpublish_track, find_track_publication,
}

published_lem :
    (sid : String) (track : ℕ) (t : LocalTrack) (p : Publications)
    → (p.handle == 0) ≡ false
    → (t.handle == 0) ≡ false
    → t.alive ≡ true
    → t.publishes ≡ true
    → let (result, p') = publish_track (some (track, t)) (gives sid) p in
      (result ≡ done)
      × ((p'.handle == 0) ≡ false)
      × (p'.published_tracks_by_sid ≡ insert sid track p.published_tracks_by_sid)
      × (lock track p' ≡ some (record t { publication = some sid }))
unfolding publish_track lock
published_lem sid track t p h k alive local_track =
    ground (arith, lookup-insert_self track (set_publication (some sid) t) p.tracks)

found_lem :
    (sid : String) (track : ℕ) (t : LocalTrack) (p : Publications)
    → lookup sid p.published_tracks_by_sid ≡ some track
    → lock track p ≡ some t
    → find_track_publication sid p ≡ (local_track_publication t, p)
unfolding find_track_publication
found_lem sid track t p e l = ground arith

unpublished_lem :
    (sid : String) (track : ℕ) (t : LocalTrack) (p : Publications)
    → (p.handle == 0) ≡ false
    → (sid == "") ≡ false
    → lookup sid p.published_tracks_by_sid ≡ some track
    → lock track p ≡ some t
    → t.publishes ≡ true
    → let p' = (unpublish_track sid (gives sid) p).1 in
      (p'.published_tracks_by_sid ≡ erase sid p.published_tracks_by_sid)
      × (lock track p' ≡ some (record t { publication = none }))
unfolding unpublish_track lock
unpublished_lem sid track t p h k e l local_track =
    ground (arith, lookup-insert_self track (set_publication none t) p.tracks)

other_inserted :
    (first second : String) (track : ℕ) (m : List (String × ℕ))
    → (first == second) ≡ false
    → lookup first (insert second track m) ≡ lookup first m
other_inserted first second track m differ = ground (
  arith,
  lookup-insert second first track m,
  string_eq.same_iff first second,
  string_eq.same_iff second first,
)

other_erased :
    (first second : String) (m : List (String × ℕ))
    → (first == second) ≡ false
    → lookup second (erase first m) ≡ lookup second m
other_erased first second m differ = ground (arith, lookup-erase first second m)

absent_lem :
    (sid : String) (p : Publications)
    → lookup sid p.published_tracks_by_sid ≡ none
    → (find_track_publication sid p).0 ≡ none
unfolding find_track_publication
absent_lem sid p e = ground arith

shown : (t : LocalTrack) → t.publishes ≡ true → local_track_publication t ≡ t.publication
shown t h = rw h refl

-- A local audio or video track is published under one id and then again under another. Under each it is
-- found after its publication. When it is unpublished under the first id, it is found under neither,
-- although it stays published under the second.
pub published_twice :
    (first second : String) (track : ℕ) (t : LocalTrack) (p : Publications)
    → (p.handle == 0) ≡ false
    → (t.handle == 0) ≡ false
    → t.alive ≡ true
    → t.publishes ≡ true
    → (first == "") ≡ false
    → (first == second) ≡ false
    → let p1 = (publish_track (some (track, t)) (gives first) p).1 in
      let t1 : LocalTrack = record t { publication = some first } in
      let p2 = (publish_track (some (track, t1)) (gives second) p1).1 in
      let p3 = (unpublish_track first (gives first) p2).1 in
      (find_track_publication first p1 ≡ (some first, p1))
      × (find_track_publication second p2 ≡ (some second, p2))
      × ((find_track_publication first p3).0 ≡ none)
      × ((find_track_publication second p3).0 ≡ none)
      × (lookup second p3.published_tracks_by_sid ≡ some track)
published_twice first second track t p h k alive local_track named differ =
    let t1 : LocalTrack = record t { publication = some first } in
    let t2 : LocalTrack = record t { publication = some second } in
    let p1 = (publish_track (some (track, t)) (gives first) p).1 in
    let p2 = (publish_track (some (track, t1)) (gives second) p1).1 in
    let p3 = (unpublish_track first (gives first) p2).1 in
    let (_, h1, in1, lock1) = published_lem first track t p h k alive local_track in
    let (_, h2, in2, lock2) = published_lem second track t1 p1 h1 k alive local_track in
    let has1 : lookup first p1.published_tracks_by_sid ≡ some track =
      ap (lookup first) in1 ∙ lookup-insert_self first track p.published_tracks_by_sid in
    let has2 : lookup second p2.published_tracks_by_sid ≡ some track =
      ap (lookup second) in2 ∙ lookup-insert_self second track p1.published_tracks_by_sid in
    let still : lookup first p2.published_tracks_by_sid ≡ some track =
      ap (lookup first) in2
      ∙ other_inserted first second track p1.published_tracks_by_sid differ
      ∙ has1 in
    let (erased, lock3) = unpublished_lem first track t2 p2 h2 named still lock2 local_track in
    let gone : lookup first p3.published_tracks_by_sid ≡ none =
      ap (lookup first) erased ∙ lookup-erase_self first p2.published_tracks_by_sid in
    let left : lookup second p3.published_tracks_by_sid ≡ some track =
      ap (lookup second) erased
      ∙ other_erased first second p2.published_tracks_by_sid differ
      ∙ has2 in
    (
      found_lem first track t1 p1 has1 lock1 ∙ ap (λ o. (o, p1)) (shown t1 local_track),
      found_lem second track t2 p2 has2 lock2 ∙ ap (λ o. (o, p2)) (shown t2 local_track),
      absent_lem first p3 gone,
      ap (λ f. f.0) (found_lem second track (record t2 { publication = none }) p3 left lock3)
          ∙ shown (record t2 { publication = none }) local_track,
      left,
    )
