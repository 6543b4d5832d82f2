-- ===== src/Bunny/Client/ReadBack.antt =====
-- The zone that the proxy reads from a request's path and the zone in the request that the client of
-- internal/bunny/client.go sends.
use Prim.Native.String.{◌++◌}
use bunny_api_proxy.Base.{ℤ, String, ◌≡◌, ◌⊎◌, subst, inl, inr, Option, some, [], ◌∷◌}
use bunny_api_proxy.Go.ParseInt.{parse_int}
use bunny_api_proxy.Go.FormatInt.{format_int, parse_int-format_int, parse_int-IsInt64}
use bunny_api_proxy.Bunny.Http.{Request}
use bunny_api_proxy.Bunny.Client.{Library, Client}
use bunny_api_proxy.Bunny.Client.Calls.{Call, perform, zone_of}
use bunny_api_proxy.Bunny.Client.Requests.{
  recorded, EndsNumber, IsForZone, IsSentFor, perform-SendsOnce,
}

-- The path of the URL names the zone by digits that `ParseInt` reads as `id`.
pub record NamesZone (base_url : String) (id : ℤ) (url : String) : Type 0 where
  pub digits : String
  pub tail : String
  pub path : url ≡ base_url ++ "/dnszone/" ++ digits ++ tail
  pub ends : EndsNumber tail
  pub read : parse_int digits ≡ some id

-- Where the proxy has read the id of a zone from the text in its own request, the one request at most
-- that a call for this zone sends is the call's, and names the same zone: its path has digits that are
-- read as that id.
pub perform-NamesZone :
    {W : Type 0} (lib : Library W) (c : Client) (call : Call) (id_text : String) (id : ℤ) (w : W)
    → parse_int id_text ≡ some id
    → zone_of call ≡ some id
    → ((perform (recorded lib) c call (w, [])).1.1 ≡ [])
      ⊎ ((r : Request) × ((perform (recorded lib) c call (w, [])).1.1 ≡ r ∷ [])
          × NamesZone c.base_url id r.url
          × IsSentFor c call r)
perform-NamesZone lib c call id_text id w parsed zone = elim (perform-SendsOnce lib c call w) [
  | inl none_sent ↦ inl none_sent
  | inr (r, sent, h) ↦
      let (tail, path, ends) =
        subst (λ (z : Option ℤ). IsForZone c.base_url z r.url) zone h.for_zone in
      inr (
        r,
        sent,
        record {
          digits = format_int id;
          tail = tail;
          path = path;
          ends = ends;
          read = parse_int-format_int id (parse_int-IsInt64 id_text id parsed);
        },
        h,
      )
]
