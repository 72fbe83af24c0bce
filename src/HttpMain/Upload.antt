-- ===== src/HttpMain/Upload.antt =====
-- The body of an upload comes in pieces, one call of the handler for each.
use distributed_file_system.Base.{
  ◌≡◌, ◌≢◌, refl, ap, ◌∙◌, true, Option, none, some, List, [], ◌∷◌, ◌++◌, length, All, Bytes, codes,
  str_eq, ◌>>=◌, arith, append-nil, append_assoc, take-all, length-append,
}
use distributed_file_system.Disk.{Disk}
use distributed_file_system.HttpMain.{
  Request, Resources, mhd_yes, buffer, Connection, first_call, append_upload, answer_to_connection,
}

-- The pieces in one.
abbrev pub joined : List Bytes → Bytes
joined [] = []
joined (p ∷ ps) = p ++ joined ps

module _ (d : Disk) where
  -- A call for each piece of the body; `none` as soon as a call faults or does not say MHD_YES.
  unfoldable pub feed : Resources → Request → List Bytes → Connection d → Option (Connection d)
  feed res req [] c = some c
  feed res req (p ∷ ps) c =
      answer_to_connection d res (record req { upload_data = p }) c >>= λ (r, c'). elim r [
        | mhd_yes ↦ feed res req ps c'
        | _ ↦ none
      ]

  module _ (res : Resources) (req : Request) (post : req.method ≡ codes "POST")
      (con_ok : res.con_info ≡ true) (grows : res.new_data ≡ true) where
    piece :
        (p : Bytes) (body : Option Bytes) (c : Connection d)
        → p ≢ []
        → c.con_cls ≡ some (record { body = body; size = length (buffer body) })
        → answer_to_connection d res (record req { upload_data = p }) c
          ≡ some (
            mhd_yes,
            record c {
              con_cls =
                  some
                    (record { body = some (buffer body ++ p); size = length (buffer body ++ p) });
            },
          )
    unfolding answer_to_connection append_upload str_eq
    piece [] body c some_bytes e = absurd (some_bytes refl)
    piece (b ∷ p) body c some_bytes e =
        rw
          (
            e,
            post,
            grows,
            take-all (length (buffer body)) (buffer body) (omega arith),
            length-append (buffer body) (b ∷ p),
          )
          (ground arith)

    feed_pieces :
        (ps : List Bytes) (bytes : Bytes) (c : Connection d)
        → All (λ p. p ≢ []) ps
        → c.con_cls ≡ some (record { body = some bytes; size = length bytes })
        → feed res req ps c
          ≡ some (record c {
            con_cls =
                some
                  (record { body = some (bytes ++ joined ps); size = length (bytes ++ joined ps) });
          })
    unfolding feed buffer
    feed_pieces [] bytes c h e =
        ap (λ k. some (record c { con_cls = k })) (e ∙ rw (append-nil bytes) refl)
    feed_pieces (p ∷ ps) bytes c (hp, h) e =
        rw (piece p (some bytes) c hp e)
          (feed_pieces ps (bytes ++ p) _ h refl ∙ rw (append_assoc bytes p (joined ps)) refl)

    opened :
        (c : Connection d)
        → c.con_cls ≡ none
        → answer_to_connection d res req c
          ≡ some (mhd_yes, record c { con_cls = some (record { body = none; size = 0 }) })
    unfolding answer_to_connection first_call
    opened c e = rw (e, con_ok) refl

    -- On a connection with no request under way, a POST whose buffers can be allocated answers
    -- MHD_YES to its first call and to each piece of the body, and then holds all of the body, in
    -- order, with its size; the node is as it was.
    pub feed-joined :
        (p : Bytes) (ps : List Bytes) (c : Connection d)
        → c.con_cls ≡ none
        → All (λ p. p ≢ []) (p ∷ ps)
        → let b : Bytes = joined (p ∷ ps) in
          (answer_to_connection d res req c >>= λ (r, c'). feed res req (p ∷ ps) c')
          ≡ some (record c { con_cls = some (record { body = some b; size = length b }) })
    unfolding feed buffer
    feed-joined p ps c e (hp, h) =
        let start : Connection d = record c { con_cls = some (record { body = none; size = 0 }) } in
        rw (opened c e, piece p none start hp refl) (feed_pieces ps p _ h refl)
