-- ===== src/Realtime/Fanout.antt =====
-- The live feed shows a client the frames of its zones and no other.
use text.Mathlib.Text.{starts_with}
use text.Mathlib.TextPositions.{starts_with-append}
use text.Mathlib.TextLemmas.{append_cancel_left, append_cancel_right}
use Prim.Native.String
use project.Api.Queries.{after}
use project.Base.{
  ==_iff, ==_refl, Bool, Bool-cases, List, Option, String, [], any, ap, arith, concat, count,
  count_middle, eq_option, eq_string, eq_ℕ, false, if◌then◌else◌, inl, inr, map, none, not, refl,
  select, some, sym, true, ◌&&◌, ◌++◌, ◌==◌, ◌||◌, ◌∙◌, ◌∷◌, ◌≡◌,
}
use project.Contracts.Auth.{includes, zone_allows}
use project.Contracts.Modes.{eq_mode}
use project.Hub.{Frame, agent_frame, alert_frame, event_frame, mode_frame}
use project.Realtime.{
  emit_mode, emit_scoped, recipients, room_unrestricted, rooms_of_zones, scoped_rooms, zone_room,
}
use project.Realtime.Sockets.{Socket, SocketIo, new_socket}

-- Whether a caller with these zones may see a frame: an alert, an agent or an event by the agent's
-- location, and where there is none only without zones; a change of mode always.
unfoldable pub may_see_at : (lower : String → String) → List String → Option String → Bool
may_see_at lower [] location = true
may_see_at lower (z ∷ zones) none = false
may_see_at lower (z ∷ zones) (some location) =
    not (location == "") && zone_allows lower (z ∷ zones) location

unfoldable pub may_see : (lower : String → String) → List String → Frame → Bool
unfolding may_see_at
may_see lower zones (alert_frame a location) = may_see_at lower zones location
may_see lower zones (agent_frame a) = may_see_at lower zones (some a.location)
may_see lower zones (event_frame e location) = may_see_at lower zones (some location)
may_see lower zones (mode_frame mode) = true

-- The rooms of the gateway are not a socket's own.
abbrev pub IsSocketId : String → Type 0
IsSocketId id = ((id == room_unrestricted) ≡ false) × (starts_with id "zone:" ≡ false)

abbrev is_empty {ℓ} : {A : Type ℓ} → List A → Bool
is_empty [] = true
is_empty (x ∷ xs) = false

abbrev is_in : Socket → List String → Bool
is_in c rooms = any (λ r. includes c.rooms r) rooms

Bool-eq : (b c : Bool) → (b ≡ true → c ≡ true) → (c ≡ true → b ≡ true) → b ≡ c
Bool-eq true c f g = sym (f refl)
Bool-eq false true f g = g refl
Bool-eq false false f g = refl

module _ (lower : String → String) where
  zone_room-injective : (a b : String) → zone_room lower a ≡ zone_room lower b → lower a ≡ lower b
  unfolding zone_room concat
  zone_room-injective a b e =
      append_cancel_right (lower a) (lower b) ""
        (append_cancel_left "zone:" (String.◌++◌ (lower a) "") (String.◌++◌ (lower b) "") e)

  -- Zones have the same room exactly if they are the same in lower case.
  zone_room_eq : (a b : String) → (zone_room lower a == zone_room lower b) ≡ (lower a == lower b)
  unfolding zone_room
  zone_room_eq a b =
      Bool-eq (zone_room lower a == zone_room lower b) (lower a == lower b)
        (λ e.
          (==_iff (lower a) (lower b)).1
            (zone_room-injective a b ((==_iff (zone_room lower a) (zone_room lower b)).0 e)))
        (λ e.
          (==_iff (zone_room lower a) (zone_room lower b)).1
            (ap (λ t. concat ("zone:" ∷ t ∷ [])) ((==_iff (lower a) (lower b)).0 e)))

  zone_room_ne :
      (id a : String) → starts_with id "zone:" ≡ false → (id == zone_room lower a) ≡ false
  unfolding zone_room concat
  zone_room_ne id a not_zone = elim (Bool-cases (id == zone_room lower a)) [
    | inl e ↦
        let same = (==_iff id (zone_room lower a)).0 e in
        let starts =
          sym (starts_with-append "zone:" (String.◌++◌ (lower a) ""))
          ∙ ap (λ v. starts_with v "zone:") (sym same) in
        absurd (ground (arith, starts, not_zone))
    | inr e ↦ e
  ]

  zone_room_scoped : (a : String) → (zone_room lower a == room_unrestricted) ≡ false
  zone_room_scoped a =
      Bool-eq (zone_room lower a == room_unrestricted) false
        (λ e.
          sym (zone_room_ne room_unrestricted a refl)
          ∙ (==_iff room_unrestricted (zone_room lower a)).1
              (sym ((==_iff (zone_room lower a) room_unrestricted).0 e)))
        (λ e. absurd (ground (arith, e)))

  includes-zone_rooms :
      (zones : List String) (l : String)
      → includes (map (zone_room lower) zones) (zone_room lower l)
        ≡ any (λ zone. lower zone == lower l) zones
  unfolding includes any
  includes-zone_rooms [] l = refl
  includes-zone_rooms (z ∷ zones) l = simp (zone_room_eq z l, includes-zone_rooms zones l)

  includes-zone_rooms_unrestricted :
      (zones : List String) → includes (map (zone_room lower) zones) room_unrestricted ≡ false
  unfolding includes any
  includes-zone_rooms_unrestricted [] = refl
  includes-zone_rooms_unrestricted (z ∷ zones) =
      simp (zone_room_scoped z, includes-zone_rooms_unrestricted zones)

  module _ (io : SocketIo) (id : String) (own : IsSocketId id) where
    includes-joined :
        (rooms : List String) (r : String)
        → (id == r) ≡ false
        → includes (io.join rooms (new_socket id)).rooms r ≡ includes rooms r
    unfolding includes any
    includes-joined rooms r other = io.includes-join rooms (new_socket id) r ∙ ground (arith, other)

    joined_unrestricted :
        (zones : List String)
        → includes (io.join (rooms_of_zones lower zones) (new_socket id)).rooms room_unrestricted
          ≡ is_empty zones
    unfolding includes any
    joined_unrestricted [] = includes-joined (room_unrestricted ∷ []) room_unrestricted own.0
    joined_unrestricted (z ∷ zones) =
        includes-joined (rooms_of_zones lower (z ∷ zones)) room_unrestricted own.0
        ∙ includes-zone_rooms_unrestricted (z ∷ zones)

    joined_zone :
        (z : String) (zones : List String) (l : String)
        → includes
            (io.join (rooms_of_zones lower (z ∷ zones)) (new_socket id)).rooms
            (zone_room lower l)
          ≡ zone_allows lower (z ∷ zones) l
    unfolding zone_allows
    joined_zone z zones l =
        includes-joined (rooms_of_zones lower (z ∷ zones)) (zone_room lower l)
          (zone_room_ne id l own.1)
        ∙ includes-zone_rooms (z ∷ zones) l

    is_in-scoped_rooms :
        (c : Socket) (l : String)
        → is_in c (scoped_rooms lower (some l)) ≡ (
            includes c.rooms room_unrestricted
            || not (l == "") && includes c.rooms (zone_room lower l))
    unfolding scoped_rooms any
    is_in-scoped_rooms c l = ground arith

    -- Whether a socket that joined the rooms of the zones is in a room of the broadcast.
    is_in-join :
        (zones : List String) (location : Option String)
        → is_in (io.join (rooms_of_zones lower zones) (new_socket id)) (scoped_rooms lower location)
          ≡ may_see_at lower zones location
    unfolding scoped_rooms may_see_at any
    is_in-join [] none = ground (arith, joined_unrestricted [])
    is_in-join [] (some l) =
        is_in-scoped_rooms (io.join (rooms_of_zones lower []) (new_socket id)) l
        ∙ ground (arith, joined_unrestricted [])
    is_in-join (z ∷ zones) none = ground (arith, joined_unrestricted (z ∷ zones))
    is_in-join (z ∷ zones) (some l) =
        is_in-scoped_rooms (io.join (rooms_of_zones lower (z ∷ zones)) (new_socket id)) l
        ∙ simp (joined_unrestricted (z ∷ zones), joined_zone z zones l)

module _ {A : Type 0} where
  count-select_and :
      (p q : A → Bool) (xs : List A) → count q (select p xs) ≡ count (λ x. p x && q x) xs
  unfolding count select
  count-select_and p q [] = refl
  count-select_and p q (x ∷ xs) = ground (arith, count-select_and p q xs)

  count_and-eq-zero :
      (p q : A → Bool) (xs : List A) → count q xs ≡ 0 → count (λ x. p x && q x) xs ≡ 0
  unfolding count
  count_and-eq-zero p q [] e = refl
  count_and-eq-zero p q (x ∷ xs) e = ground (arith, count_and-eq-zero p q xs)

  -- How often the one element that passes is selected.
  count-select_one :
      (p q : A → Bool) (before : List A) (c : A) (after : List A)
      → q c ≡ true
      → count q (before ++ after) ≡ 0
      → count q (select p (before ++ c ∷ after)) ≡ (if p c then 1 else 0)
  count-select_one p q before c after self others =
      count-select_and p q (before ++ c ∷ after)
      ∙ count_middle (λ x. p x && q x) before c after
      ∙ ground (arith, count_and-eq-zero p q (before ++ after) others)

module _ (lower : String → String) (io : SocketIo) (zones : List String) (id : String)
    (own : IsSocketId id) (before after : List Socket)
    (others : count (λ s. s.id == id) (before ++ after) ≡ 0) where
  abbrev joined : Socket
  joined = io.join (rooms_of_zones lower zones) (new_socket id)

  is_joined : (joined.id == id) ≡ true
  is_joined = ap (λ t. t == id) (io.id-join _ (new_socket id)) ∙ ==_refl id

  copies_scoped :
      (location : Option String)
      → count (λ s. s.id == id) (emit_scoped lower io location (some (before ++ joined ∷ after)))
        ≡ (if may_see_at lower zones location then 1 else 0)
  unfolding emit_scoped
  copies_scoped location =
      ap (count (λ s. s.id == id))
        (io.to_rooms_lem (scoped_rooms lower location) (before ++ joined ∷ after))
      ∙ count-select_one (λ c. is_in c (scoped_rooms lower location)) (λ s. s.id == id) before
          joined after is_joined others
      ∙ ap (λ b. if b then 1 else 0) (is_in-join lower io id own zones location)

  -- A connected client gets one copy of each frame that its zones let it see, and none of another.
  pub copies_lem :
      (f : Frame)
      → count (λ s. s.id == id) (recipients lower io f (some (before ++ joined ∷ after)))
        ≡ (if may_see lower zones f then 1 else 0)
  unfolding recipients may_see emit_mode
  copies_lem (alert_frame a location) = copies_scoped location
  copies_lem (agent_frame a) = copies_scoped (some a.location)
  copies_lem (event_frame e location) = copies_scoped (some location)
  copies_lem (mode_frame mode) =
      count_middle (λ s. s.id == id) before joined after ∙ ground (arith, is_joined, others)
