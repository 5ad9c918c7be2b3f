-- ===== src/Realtime/Watching.antt =====
-- Whom the gateway lets in.
use project.Api.Queries.{after}
use project.Base.{
  Bool-cases, List, Option, String, any, ap, arith, count, eq_option, eq_string, eq_ℕ,
  if◌then◌else◌, inl, inr, none, refl, some, sym, true, ℕ, ◌++◌, ◌==◌, ◌∙◌, ◌∷◌, ◌≡◌, ◌≢◌,
}
use project.Contracts.Auth.{
  AuthRole, admin, alerts_read, bootstrap, eq_permission, eq_role, includes, operator,
  permissions_for_role, role_has, viewer,
}
use project.Db.{Prisma}
use project.Http.{>>=-eq-ok, ok, ok-injective}
use project.Hub.{Agent, Frame}
use project.Maintenance.RollUpWindow.{found}
use project.Notifications.Service.{given}
use project.Realtime.{
  Handshake, admit, handle_connection, handle_credential, provided, recipients, rooms_of_zones,
}
use project.Realtime.Fanout.{IsSocketId, copies_lem, may_see}
use project.Realtime.Sockets.{Socket, SocketIo, new_socket}
use project.Security.Credential.{AuthKeys, Identity, resolve}
use project.Security.GuardLaws.{resolve_sound}

module _ (lower : String → String) (io : SocketIo) (db : Prisma) (hash : String → String)
    (keys : AuthKeys) where
  -- A person's credential came with the handshake, and its role may read alerts.
  pub record IsWatching (now : ℕ) (handshake : Handshake) (agents : List Agent) (i : Identity)
      : Type 0 where
    pub credential : String
    pub given : provided handshake ≡ some credential
    pub resolved : resolve db hash keys now credential agents ≡ ok (some i)
    pub reads : role_has i.role alerts_read ≡ true
    pub not_agent : i.role ≢ AuthRole.agent
    pub not_bootstrap : i.role ≢ bootstrap

  admit_sound :
      (o : Option Identity) (id : String) (c : Socket)
      → admit lower io o (new_socket id) ≡ some c
      → (i : Identity) × (o ≡ some i)
        × (includes i.permissions alerts_read ≡ true)
        × (io.join (rooms_of_zones lower i.zones) (new_socket id) ≡ c)
  unfolding admit
  admit_sound none id c e = absurd (ground arith)
  admit_sound (some i) id c e = (i, refl, ground arith, ground arith)

  reader-IsPerson :
      (role : AuthRole)
      → role_has role alerts_read ≡ true
      → (role ≢ AuthRole.agent) × (role ≢ bootstrap)
  unfolding role_has includes any permissions_for_role
  reader-IsPerson bootstrap e = absurd (ground arith)
  reader-IsPerson AuthRole.agent e = absurd (ground arith)
  reader-IsPerson viewer e = (ground arith, ground arith)
  reader-IsPerson operator e = (ground arith, ground arith)
  reader-IsPerson admin e = (ground arith, ground arith)

  handle_credential_sound :
      (now : ℕ) (agents : List Agent) (id : String) (o : Option String) (c : Socket)
      → handle_credential lower io db hash keys now agents (new_socket id) o ≡ ok (some c)
      → (credential : String) × (o ≡ some credential)
        × (found : Option Identity) × (resolve db hash keys now credential agents ≡ ok found)
        × (admit lower io found (new_socket id) ≡ some c)
  unfolding handle_credential
  handle_credential_sound now agents id none c e = absurd (ground arith)
  handle_credential_sound now agents id (some credential) c e =
      elim (Bool-cases (credential == "")) [
        | inl blank ↦ absurd (ground arith)
        | inr given ↦
            let (found, resolved, same) =
              >>=-eq-ok (resolve db hash keys now credential agents)
                (λ found. ok (admit lower io found (new_socket id))) (some c) (rw given at e) in
            (credential, refl, found, resolved, ok-injective _ (some c) same)
      ]

  handle_connection_sound :
      (now : ℕ) (handshake : Handshake) (agents : List Agent) (id : String) (c : Socket)
      → handle_connection lower io db hash keys now handshake agents (new_socket id) ≡ ok (some c)
      → (i : Identity) × IsWatching now handshake agents i
        × (io.join (rooms_of_zones lower i.zones) (new_socket id) ≡ c)
  unfolding handle_connection role_has
  handle_connection_sound now handshake agents id c e =
      let (credential, given, found, resolved, admitted) =
        handle_credential_sound now agents id (provided handshake) c e in
      let (i, is_i, reads, same) = admit_sound found id c admitted in
      let found_i = resolved ∙ ap ok is_i in
      let (by_role, own) = resolve_sound db hash keys now credential agents i found_i in
      let role_reads = ap (λ p. includes p alerts_read) (sym by_role) ∙ reads in
      let (a, b) = reader-IsPerson i.role role_reads in
      (
        i,
        record {
          credential = credential;
          given = given;
          resolved = found_i;
          reads = role_reads;
          not_agent = a;
          not_bootstrap = b;
        },
        same,
      )

  -- A socket that is let in came with the credential of a person whose role may read alerts, never of
  -- an agent or with the bootstrap key; and of any frame it is sent one copy if the identity's zones
  -- let it see the frame, and none if they do not, whoever else is connected.
  pub watching_lem :
      (now : ℕ) (handshake : Handshake) (agents : List Agent) (id : String) (c : Socket) (f : Frame)
      (before after : List Socket)
      → IsSocketId id
      → handle_connection lower io db hash keys now handshake agents (new_socket id) ≡ ok (some c)
      → count (λ s. s.id == id) (before ++ after) ≡ 0
      → (i : Identity) × IsWatching now handshake agents i
        × (count (λ s. s.id == id) (recipients lower io f (some (before ++ c ∷ after)))
            ≡ (if may_see lower i.zones f then 1 else 0))
  watching_lem now handshake agents id c f before after own e others =
      let (i, watching, same) = handle_connection_sound now handshake agents id c e in
      (
        i,
        watching,
        ap (λ s. count (λ s. s.id == id) (recipients lower io f (some (before ++ s ∷ after))))
              (sym same)
            ∙ copies_lem lower io i.zones id own before after others f,
      )
