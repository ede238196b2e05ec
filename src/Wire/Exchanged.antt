-- ===== src/Wire/Exchanged.antt =====
-- What the service and the Gateway exchange in apps/console-api/src/gen/hue/v1/lighting_service.ts: a
-- change of a Light, and the Lights of the Bridge.
use sharpn.Prelude.{arith, ℕ, ◌+◌, ◌≡◌, ◌++◌, length}
use sharpn.Wire.{Bytes, Reader, reader, Wire, ok}
use sharpn.Wire.Reading.{Ends}
use sharpn.Wire.Message.{decode_as, decode_as-Ends, decode_as-encode}
use sharpn.Wire.Service.UpdateLightRequest.{UpdateLightRequest}
use sharpn.Wire.Service.UpdateLightRequest
use sharpn.Wire.Service.MutationResponse.{MutationResponse}
use sharpn.Wire.Service.MutationResponse
use sharpn.Wire.Service.ListLightsResponse.{ListLightsResponse}
use sharpn.Wire.Service.ListLightsResponse

module _ (w : Wire) where
  -- A request to change a Light, with any properties, is read back from the bytes that it is
  -- written as, and what stands behind those bytes is left, where its texts are well formed, its
  -- numbers and lengths fit in 32 bits, and no number that a message leaves out where it is zero
  -- is the negative one.
  pub update_light-encode :
      (m : UpdateLightRequest)
      → UpdateLightRequest.IsSendable w m
      → (at : ℕ) (rest : Bytes)
      → decode_as
          (UpdateLightRequest.message w)
          0
          (length (UpdateLightRequest.encode w m))
          (reader at (UpdateLightRequest.encode w m ++ rest))
        ≡ ok m (reader (at + length (UpdateLightRequest.encode w m)) rest)
  update_light-encode m fits at rest =
      decode_as-encode (UpdateLightRequest.message w) m fits 0 at rest (omega arith)

  -- What a mutation did is read back too.
  pub mutation-encode :
      (m : MutationResponse)
      → MutationResponse.IsSendable w m
      → (at : ℕ) (rest : Bytes)
      → decode_as
          (MutationResponse.message w)
          0
          (length (MutationResponse.encode w m))
          (reader at (MutationResponse.encode w m ++ rest))
        ≡ ok m (reader (at + length (MutationResponse.encode w m)) rest)
  mutation-encode m fits at rest =
      decode_as-encode (MutationResponse.message w) m fits 0 at rest (omega arith)

  -- The Lights of the Bridge, each with all of its properties, are read back from the bytes that
  -- they are written as, in order, and what stands behind those bytes is left, where their texts
  -- are well formed, their numbers and lengths fit in 32 bits, and no number that a message
  -- leaves out where it is zero is the negative one.
  pub list_lights-encode :
      (m : ListLightsResponse)
      → ListLightsResponse.IsSendable w m
      → (at : ℕ) (rest : Bytes)
      → decode_as
          (ListLightsResponse.message w)
          0
          (length (ListLightsResponse.encode w m))
          (reader at (ListLightsResponse.encode w m ++ rest))
        ≡ ok m (reader (at + length (ListLightsResponse.encode w m)) rest)
  list_lights-encode m fits at rest =
      decode_as-encode (ListLightsResponse.message w) m fits 0 at rest (omega arith)

  -- Whatever bytes arrive and whatever length they are said to have, reading the Lights of the
  -- Bridge comes to an end, by an answer or by throwing, and gives back no more bytes than there
  -- were.
  pub list_lights-Ends :
      (len : ℕ) (r : Reader)
      → Ends (length r.rest) (decode_as (ListLightsResponse.message w) 0 len r)
  list_lights-Ends len r = decode_as-Ends (ListLightsResponse.message w) 0 len r
