-- ===== src/LocalParticipant/Publications.antt =====
-- The tracks that a local participant publishes (src/local_participant.cpp). A track is an object that
-- the user holds, named by a number; the participant has a weak pointer to it.
pub mod Lifecycle
use client_sdk_cpp.Prelude.{
  ℕ, Bool, true, false, List, [], ◌∷◌, Option, none, some, String, if◌then◌else◌,
}
use client_sdk_cpp.Prelude.Assoc.{◌==◌, string_eq, nat_eq, lookup, insert, erase, emplace}

-- `publishes` is true for the local audio and video tracks, which keep their publication.
pub record LocalTrack : Type 0 where
  pub handle : ℕ
  pub alive : Bool
  pub publishes : Bool
  pub publication : Option String

-- A publication is named by its id.
pub record Publications : Type 0 where
  pub handle : ℕ
  pub published_tracks_by_sid : List (String × ℕ)
  pub tracks : List (ℕ × LocalTrack)

pub data Published : Type 0 where
  done returns_early : Published
  throws : String → Published

-- What becomes of the request: `fut.get()` throws, or it gives the publication's id.
pub data Answer : Type 0 where
  fails : String → Answer
  gives : String → Answer

-- `it->second.lock()`
unfoldable pub lock : ℕ → Publications → Option LocalTrack
lock track p = elim (lookup track p.tracks) [
  | none ↦ none
  | some t ↦ (if t.alive then some t else none)
]

-- `Track::setPublication`, which does nothing for other tracks than local ones.
abbrev pub set_publication : Option String → LocalTrack → LocalTrack
set_publication publication t = if t.publishes then record t { publication = publication } else t

-- `localTrackPublication`
abbrev pub local_track_publication : LocalTrack → Option String
local_track_publication t = if t.publishes then t.publication else none

-- The user holds the track that is published, so it is alive.
unfoldable pub publish_track :
    Option (ℕ × LocalTrack) → Answer → Publications → Published × Publications
publish_track none answer p = (throws "LocalParticipant::publishTrack: track is null", p)
publish_track (some (track, t)) answer p =
    if p.handle == 0
    then (throws "LocalParticipant::publishTrack: invalid participant FFI handle", p)
    else (if t.handle == 0
        then (throws "LocalParticipant::publishTrack: invalid track FFI handle", p)
        else (elim answer [
          | fails text ↦ (throws text, p)
          | gives sid ↦ (
            done,
            record p {
              published_tracks_by_sid = insert sid track p.published_tracks_by_sid;
              tracks = insert track (set_publication (some sid) t) p.tracks;
            },
          )
        ]))

-- `t->setPublication(nullptr)` for the track, if it is alive.
abbrev pub clear_publication : ℕ → Publications → Publications
clear_publication track p = elim (lock track p) [
  | none ↦ p
  | some t ↦ record p { tracks = insert track (set_publication none t) p.tracks }
]

abbrev pub forget : String → Publications → Publications
forget sid p = record p { published_tracks_by_sid = erase sid p.published_tracks_by_sid }

-- The answer's id is not looked at.
unfoldable pub unpublish_track : String → Answer → Publications → Published × Publications
unpublish_track sid answer p =
    if sid == ""
    then (returns_early, p)
    else (if p.handle == 0
        then (throws "LocalParticipant::unpublishTrack: invalid FFI handle", p)
        else (elim answer [
          | fails text ↦ (throws text, p)
          | gives _ ↦ (elim (lookup sid p.published_tracks_by_sid) [
            | none ↦ (done, p)
            | some track ↦ (done, forget sid (clear_publication track p))
          ])
        ]))

-- `findTrackPublication`, which drops a track that is gone.
unfoldable pub find_track_publication : String → Publications → Option String × Publications
find_track_publication sid p = elim (lookup sid p.published_tracks_by_sid) [
  | none ↦ (none, p)
  | some track ↦ (elim (lock track p) [
    | none ↦ (none, forget sid p)
    | some t ↦ (local_track_publication t, p)
  ])
]

-- The loop of `trackPublications`, over the entries of the map: the publications, and the entries that
-- stay.
unfoldable pub track_publications :
    List (String × ℕ) → Publications → List (String × String) × List (String × ℕ)
track_publications [] p = ([], [])
track_publications ((sid, track) ∷ rest) p =
    let (out, kept) = track_publications rest p in
    elim (lock track p) [
      | none ↦ (out, kept)
      | some t ↦ (elim (local_track_publication t) [
        | none ↦ (out, (sid, track) ∷ kept)
        | some publication ↦ (emplace sid publication out, (sid, track) ∷ kept)
      ])
    ]
