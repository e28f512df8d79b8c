-- ===== src/TaskStore/Artifact.antt =====
-- task-core/src/interfaces.ts: the record of a stored artifact and its schema.
use surfgate.Common.{
  ℕ, zero, suc, Bool, false, ◌&&◌, ◌||◌, none, some, [], ◌∷◌, leb, nat_eq, length, all,
}
use surfgate.Contracts.Text.{Text, codes, strip_prefix, is_hex, is_digit}
use surfgate.Contracts.Ids.{is_task_id, is_tenant_id, is_session_id, is_artifact_id}
use surfgate.Contracts.Tasks.{PublicArtifact, is_artifact}

pub record ArtifactRecord : Type 0 where
  pub shown : PublicArtifact
  pub tenant_id : Text
  pub task_id : Text
  pub session_id : Text
  pub storage_key : Text

-- The first `n` characters and the rest.
split_at : ℕ → Text → Text × Text
split_at zero t = ([], t)
split_at (suc n) [] = ([], [])
split_at (suc n) (c ∷ t) = let (u, v) = split_at n t in (c ∷ u, v)

abbrev behind : Text → (Text → Bool) → Text → Bool
behind prefix rest t = elim (strip_prefix prefix t) [ none ↦ false | some u ↦ rest u ]

-- An identifier of 30 characters, a slash, and what the rest has to be.
segment : (Text → Bool) → (Text → Bool) → Text → Bool
unfolding split_at strip_prefix
segment is_id rest t = let (u, v) = split_at 30 t in is_id u && behind (codes "/") rest v

is_digest : Text → Bool
unfolding all
is_digest t = nat_eq (length t) 16 && all (λ c. is_hex c) t

-- `a[1-9][0-9]?-[0-9a-f]{16}`, behind the `a`.
is_attempt : Text → Bool
unfolding is_digest strip_prefix
is_attempt [] = false
is_attempt (d ∷ []) = false
is_attempt (d ∷ e ∷ t) =
    leb b'1' d
    && leb d b'9'
    && (behind (codes "-") is_digest (e ∷ t) || (is_digit e && behind (codes "-") is_digest t))

is_storage_key : Text → Bool
unfolding segment is_attempt strip_prefix
is_storage_key t =
    behind (codes "v1/")
      (λ u.
        segment is_tenant_id
          (λ v.
            segment is_task_id
              (λ w. segment is_artifact_id (λ x. behind (codes "a") is_attempt x) w) v)
          u)
      t

-- `ArtifactRecordSchema.safeParse`, which changes nothing.
unfoldable pub is_artifact_record : ArtifactRecord → Bool
unfolding is_artifact is_storage_key
is_artifact_record a =
    is_artifact a.shown
    && is_tenant_id a.tenant_id
    && is_task_id a.task_id
    && is_session_id a.session_id
    && is_storage_key a.storage_key
