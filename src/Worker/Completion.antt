-- ===== src/Worker/Completion.antt =====
-- On the branch of `_execute` in files/application/operation_worker.py that copies, moves or renames,
-- where every call of the object storage answers: it is carried out.
use s3mp_backend.Prelude.{
  ℕ, true, false, ◌≡◌, ◌≢◌, sym, ap, ◌∙◌, Option, none, some, Result, ok, err, subst,
}
use s3mp_backend.Prelude.Text.{Text, codes}
use s3mp_backend.Keys.{ProviderTarget}
use s3mp_backend.Identity.{PrincipalContext}
use s3mp_backend.Worker.{Operation, ObjectState, Services, Stop, Act, ◌>>=◌, ◌>>◌, wait_for}
use s3mp_backend.Worker.Effects.{
  removes_source, found_or_stop, ensure_copied, verify, authorize, remove_source, relocate,
}
use s3mp_backend.Worker.Storage.{IsStorage, Ends, After, >>=-After, >>-After}
use s3mp_backend.Worker.Verified.{IsVerified, Checked, verify-Ends}
use s3mp_backend.Worker.Relocation.{IsDone, Removed, remove_source-Ends}
use s3mp_backend.Worker.Progress.{
  IsCopyOf, IsWorking, answered-Ends, answered_then-Ends, verify-Good, remove_source-Good,
}

module _ {W : Type 0} (objects : W → ProviderTarget → Option ObjectState) where
  -- The branch has come to its end: the destination holds a copy of `s`, and the source is gone after a
  -- move or a rename and holds `s` after a copy.
  pub record IsCarriedOut (op : Operation) (source destination : ProviderTarget) (s : ObjectState)
      (r : Result Stop (Unit {0})) (u : W) : Type 0 where
    pub reported : r ≡ ok tt
    pub copy : ObjectState
    pub placed : objects u destination ≡ some copy
    pub copies : IsCopyOf s copy
    pub source_gone : removes_source op.operation_type ≡ true → objects u source ≡ none
    pub source_kept : removes_source op.operation_type ≡ false → objects u source ≡ some s

module _ {W : Type 0} (show_uuid : ℕ → Text) (services : Services W)
    (objects : W → ProviderTarget → Option ObjectState) (storage : IsStorage services objects)
    (working : IsWorking services objects) (op : Operation)
    (no_integrity : op.rename_integrity ≡ none) (ctx : PrincipalContext) (space_id : ℕ) (key : Text)
    (may_delete : (v : W)
      → authorize show_uuid services op ctx space_id (codes "files.delete") key v ≡ (ok true, v))
    (source destination : ProviderTarget) (s : ObjectState) where
  abbrev Carried : Result Stop (Unit {0}) → W → Type 0
  Carried r u = IsCarriedOut objects op source destination s r u

  module _ (apart : source ≢ destination) (d : ObjectState) (copies : IsCopyOf s d) where
    removal : Act W (Unit {0})
    removal = remove_source show_uuid services op ctx space_id key source (some s)

    removal-IsCarriedOut :
        (v : W) (r : Result Stop (Unit {0})) (u : W)
        → objects v source ≡ some s
        → objects v destination ≡ some d
        → r ≡ ok tt
        → Removed objects op source v r u
        → Carried r u
    unfolding Removed
    removal-IsCarriedOut v r u there placed e (others, gone, kept) = record {
      reported = e;
      copy = d;
      placed = others destination (λ q. apart (sym q)) ∙ placed;
      copies = copies;
      source_gone = λ f. gone f (subst IsDone (sym e) tt);
      source_kept = λ f. kept f ∙ there;
    }

    checks-IsCarriedOut :
        (v : W) (r : Result Stop (Unit {0})) (u : W)
        → objects v source ≡ some s
        → objects v destination ≡ some d
        → r ≡ ok tt
        → Checked objects (IsVerified op) (some s) d v r u
        → After (λ _. removal) Carried r u
    unfolding removal
    checks-IsCarriedOut v (err stop) u there placed e c = absurd (cc)
    checks-IsCarriedOut v (ok _) u there placed e (h, same) =
        let held =
          λ (t : ProviderTarget). ap (λ (f : ProviderTarget → Option ObjectState). f t) same in
        removal-IsCarriedOut u (removal u).0 (removal u).1 (held source ∙ there)
          (held destination ∙ placed)
          (remove_source-Good show_uuid services objects storage working op no_integrity ctx
            space_id key may_delete source s u)
          (remove_source-Ends show_uuid services objects storage op ctx space_id key source (some s)
            u (held source ∙ there))

    finish-IsCarriedOut :
        (v : W)
        → objects v source ≡ some s
        → objects v destination ≡ some d
        → Ends (verify show_uuid services op (some s) d >> removal) v Carried
    finish-IsCarriedOut v there placed =
        let check = verify show_uuid services op (some s) d in
        >>-After check removal v Carried (
          checks-IsCarriedOut v (check v).0 (check v).1 there placed
            (verify-Good show_uuid services objects storage working op no_integrity s d v copies)
            (verify-Ends show_uuid services objects storage op (some s) d v))

  -- Under the laws of the storage, where every call answers and a copy copies, the subject may delete
  -- the source in every world, and the request
  -- says nothing on the integrity of a rename: a copy, a move or a rename of an object that is
  -- there, to a target that is free, is carried out and reported as done. The destination then holds a
  -- copy of the object, of its length and of its checksum if it has one; the source is gone after a move
  -- or a rename, and after a copy it holds the object still.
  pub relocate_done :
      (w : W)
      → objects w source ≡ some s
      → objects w destination ≡ none
      → Ends
          (relocate show_uuid services op ctx space_id key source destination)
          w
          (IsCarriedOut objects op source destination s)
  unfolding relocate ensure_copied removal
  relocate_done w there free =
      let first = (services.head source w).1 in
      let second = (services.head destination first).1 in
      let third = (services.copy source destination second).1 in
      let fourth = (services.head destination third).1 in
      let finish = λ (o : Option ObjectState) (d : ObjectState).
        verify show_uuid services op o d
        >> remove_source show_uuid services op ctx space_id key source o in
      let apart : source ≢ destination = λ e. absurd (cc (sym there ∙ (ap (objects w) e ∙ free))) in
      let still = storage.head_keeps destination first ∙ storage.head_keeps source w in
      let (d, placed, copies) =
        working.copied source destination second s (ap (λ f. f source) still ∙ there) in
      let same_fourth = storage.head_keeps destination third in
      let kept : objects fourth source ≡ some s =
        ap (λ f. f source) same_fourth
        ∙ (storage.copy_keeps source destination source second apart
            ∙ (ap (λ f. f source) still ∙ there)) in
      answered-Ends (services.head source)
        (λ o. wait_for (services.head destination) >>= λ d.
          ensure_copied show_uuid services source destination o d >>= finish o)
        w (some s) Carried (working.head_works source w ∙ ap some there)
        (answered-Ends (services.head destination)
          (λ d. ensure_copied show_uuid services source destination (some s) d >>= finish (some s))
          first none Carried
          (working.head_works destination first
            ∙ ap some (ap (λ f. f destination) (storage.head_keeps source w) ∙ free))
          (>>=-After (ensure_copied show_uuid services source destination (some s) none)
            (finish (some s)) second Carried
            (answered_then-Ends (services.copy source destination)
              (wait_for (services.head destination) >>= found_or_stop) second tt
              (After (finish (some s)) Carried) (working.copy_works source destination second)
              (answered-Ends (services.head destination) found_or_stop third (some d)
                (After (finish (some s)) Carried)
                (working.head_works destination third ∙ ap some placed)
                (finish-IsCarriedOut apart d copies fourth kept
                  (ap (λ f. f destination) same_fourth ∙ placed))))))
