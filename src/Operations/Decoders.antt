-- ===== src/Operations/Decoders.antt =====
-- What saving a decoder keeps.
use ra_backend.Base.{
  String, List, [], ◌∷◌, ◌++◌, ◌≡◌, ◌≢◌, ◌⊎◌, inl, inr, refl, sym, ◌∙◌, arith, select,
  select-append, select-modify_found, select-modify_apart, test_of_select, keys_apart, eq_refl,
  eq_iff, ne→not_eq,
}
use ra_backend.Models.{Decoder}
use ra_backend.Core.Exec.{Tx, ok}
use ra_backend.Operations.Service.{
  DecoderUpsert, decoder_is, rewrite_decoder, new_decoder, upsert_decoder,
}

abbrev pub decoder_rows : String → Tx → List Decoder
decoder_rows id s = select (decoder_is id) s.current.decoders

-- What is stored, by the rows that were there.
abbrev pub saved : DecoderUpsert → List Decoder → Decoder
saved p [] = new_decoder p
saved p (d ∷ r) = rewrite_decoder p d

select-append_apart :
    (id : String) (d : Decoder) (xs : List Decoder)
    → d.id ≢ id
    → select (decoder_is id) (xs ++ d ∷ []) ≡ select (decoder_is id) xs
select-append_apart id d [] ne = rw (ne→not_eq _ _ ne) refl
select-append_apart id d (x ∷ xs) ne = ground (arith, select-append_apart id d xs ne)

module _ (s : Tx) (p : DecoderUpsert) where
  -- Where at most one decoder has the id, saving a decoder answers with and stores one row with the
  -- id: the new one, or the old one rewritten, which keeps its configuration where none is given;
  -- the rows of other ids are as before.
  upsert_decoder_stores :
      (rows : List Decoder)
      → decoder_rows p.id s ≡ rows
      → (rows ≡ []) ⊎ ((d : Decoder) × (rows ≡ d ∷ []))
      → let (r, s') = upsert_decoder p s in
        (r ≡ ok (saved p rows))
        × (decoder_rows p.id s' ≡ saved p rows ∷ [])
        × ((id : String) → id ≢ p.id → decoder_rows id s' ≡ decoder_rows id s)
  unfolding upsert_decoder
  upsert_decoder_stores rows found (inl none_there) =
      rw (found, none_there)
        (
          refl,
          select-append (decoder_is p.id) s.current.decoders (new_decoder p ∷ [])
              ∙ rw (found, none_there, eq_refl p.id) refl,
          λ id ne. select-append_apart id (new_decoder p) s.current.decoders (λ e. ne (sym e)),
        )
  upsert_decoder_stores rows found (inr (d, one)) =
      rw (found, one)
        (
          refl,
          select-modify_found (decoder_is p.id) (decoder_is d.id) (rewrite_decoder p) d
              s.current.decoders (λ c. refl) (eq_refl d.id) (found ∙ one),
          λ id ne.
              select-modify_apart (decoder_is id) (decoder_is d.id) (rewrite_decoder p) (λ c. refl)
                (λ c. keys_apart c.id id d.id (λ e. ne (e ∙ own_key d (found ∙ one))))
                s.current.decoders,
        )
    where
      own_key : (d : Decoder) → decoder_rows p.id s ≡ d ∷ [] → d.id ≡ p.id
      own_key d there =
          (eq_iff d.id p.id).0 (test_of_select (decoder_is p.id) s.current.decoders d [] there)
