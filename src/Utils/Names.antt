-- ===== src/Utils/Names.antt =====
-- data/budNames.json.
use backend.Common.{String, List, [], ◌∷◌}

pub record NameAndImage : Type 0 where
  pub name : String
  pub image : String
  pub gen1_video : String

unfoldable pub bud_names : List NameAndImage
bud_names =
    record {
      name = "Apple Fritter";
      image = "https://looklabs.s3.amazonaws.com/buds/420_AppleFritter.mp4";
      gen1_video =
          "https://looklabs.mypinata.cloud/ipfs/QmZ1ycjX1sc6KuZBMf5PQb798Pv1QCA7PP6qHSEr1gubTi/Gen1_01_fantasy_0001-0240.mp4";
    }
    ∷ record {
      name = "Biscotti";
      image = "https://looklabs.s3.amazonaws.com/buds/420_Biscotti.mp4";
      gen1_video =
          "https://looklabs.mypinata.cloud/ipfs/QmZ1ycjX1sc6KuZBMf5PQb798Pv1QCA7PP6qHSEr1gubTi/Gen1_02_fantasy_0001-0240.mp4";
    }
    ∷ record {
      name = "Blue OX";
      image = "https://looklabs.s3.amazonaws.com/buds/420_Blue_Ox.mp4";
      gen1_video =
          "https://looklabs.mypinata.cloud/ipfs/QmZ1ycjX1sc6KuZBMf5PQb798Pv1QCA7PP6qHSEr1gubTi/Gen1_03_fantasy_0001-0240.mp4";
    }
    ∷ record {
      name = "Blueberry OG";
      image = "https://looklabs.s3.amazonaws.com/buds/420_Blueberry.mp4";
      gen1_video =
          "https://looklabs.mypinata.cloud/ipfs/QmZ1ycjX1sc6KuZBMf5PQb798Pv1QCA7PP6qHSEr1gubTi/Gen1_04_fantasy_0001-0240.mp4";
    }
    ∷ record {
      name = "Blue Dream";
      image = "https://looklabs.s3.amazonaws.com/buds/420_BlueDream.mp4";
      gen1_video =
          "https://looklabs.mypinata.cloud/ipfs/QmZ1ycjX1sc6KuZBMf5PQb798Pv1QCA7PP6qHSEr1gubTi/Gen1_05_fantasy_0001-0240.mp4";
    }
    ∷ record {
      name = "Bruce Banner";
      image = "https://looklabs.s3.amazonaws.com/buds/420_Bruce_Banner.mp4";
      gen1_video =
          "https://looklabs.mypinata.cloud/ipfs/QmZ1ycjX1sc6KuZBMf5PQb798Pv1QCA7PP6qHSEr1gubTi/Gen1_06_fantasy_0001-0240.mp4";
    }
    ∷ record {
      name = "Do-Si-Dos";
      image = "https://looklabs.s3.amazonaws.com/buds/420_DoSiDos.mp4";
      gen1_video =
          "https://looklabs.mypinata.cloud/ipfs/QmZ1ycjX1sc6KuZBMf5PQb798Pv1QCA7PP6qHSEr1gubTi/Gen1_07_fantasy_0001-0240.mp4";
    }
    ∷ record {
      name = "Forbidden Fruit";
      image = "https://looklabs.s3.amazonaws.com/buds/420_ForbiddenFruit.mp4";
      gen1_video =
          "https://looklabs.mypinata.cloud/ipfs/QmZ1ycjX1sc6KuZBMf5PQb798Pv1QCA7PP6qHSEr1gubTi/Gen1_08_fantasy_0001-0240.mp4";
    }
    ∷ record {
      name = "Gelato";
      image = "https://looklabs.s3.amazonaws.com/buds/420_Gelato.mp4";
      gen1_video =
          "https://looklabs.mypinata.cloud/ipfs/QmZ1ycjX1sc6KuZBMf5PQb798Pv1QCA7PP6qHSEr1gubTi/Gen1_09_fantasy_0001-0240.mp4";
    }
    ∷ record {
      name = "Golden Goat";
      image = "https://looklabs.s3.amazonaws.com/buds/420_Golden_Goat.mp4";
      gen1_video =
          "https://looklabs.mypinata.cloud/ipfs/QmZ1ycjX1sc6KuZBMf5PQb798Pv1QCA7PP6qHSEr1gubTi/Gen1_10_fantasy_0001-0240.mp4";
    }
    ∷ record {
      name = "Gorilla Glue";
      image = "https://looklabs.s3.amazonaws.com/buds/420_Gorilla_Glue.mp4";
      gen1_video =
          "https://looklabs.mypinata.cloud/ipfs/QmZ1ycjX1sc6KuZBMf5PQb798Pv1QCA7PP6qHSEr1gubTi/Gen1_11_fantasy_0001-0240.mp4";
    }
    ∷ record {
      name = "Granddaddy Purple";
      image = "https://looklabs.s3.amazonaws.com/buds/420_GranddayPurple.mp4";
      gen1_video =
          "https://looklabs.mypinata.cloud/ipfs/QmZ1ycjX1sc6KuZBMf5PQb798Pv1QCA7PP6qHSEr1gubTi/Gen1_12_fantasy_0001-0240.mp4";
    }
    ∷ record {
      name = "Grandma's Sugar Cookies";
      image = "https://looklabs.s3.amazonaws.com/buds/420_Grandmas_Sugar_Cookies.mp4";
      gen1_video =
          "https://looklabs.mypinata.cloud/ipfs/QmZ1ycjX1sc6KuZBMf5PQb798Pv1QCA7PP6qHSEr1gubTi/Gen1_13_fantasy_0001-0240.mp4";
    }
    ∷ record {
      name = "L.A. Confidential";
      image = "https://looklabs.s3.amazonaws.com/buds/420_LA_Confidential.mp4";
      gen1_video =
          "https://looklabs.mypinata.cloud/ipfs/QmZ1ycjX1sc6KuZBMf5PQb798Pv1QCA7PP6qHSEr1gubTi/Gen1_14_fantasy_0001-0240.mp4";
    }
    ∷ record {
      name = "Northern Lights";
      image = "https://looklabs.s3.amazonaws.com/buds/420_Northern_Lights.mp4";
      gen1_video =
          "https://looklabs.mypinata.cloud/ipfs/QmZ1ycjX1sc6KuZBMf5PQb798Pv1QCA7PP6qHSEr1gubTi/Gen1_15_fantasy_0001-0240.mp4";
    }
    ∷ record {
      name = "OG Kush";
      image = "https://looklabs.s3.amazonaws.com/buds/420_OG_Kush.mp4";
      gen1_video =
          "https://looklabs.mypinata.cloud/ipfs/QmZ1ycjX1sc6KuZBMf5PQb798Pv1QCA7PP6qHSEr1gubTi/Gen1_16_fantasy_0001-0240.mp4";
    }
    ∷ record {
      name = "Orange Bud";
      image = "https://looklabs.s3.amazonaws.com/buds/420_Orange_Bud.mp4";
      gen1_video =
          "https://looklabs.mypinata.cloud/ipfs/QmZ1ycjX1sc6KuZBMf5PQb798Pv1QCA7PP6qHSEr1gubTi/Gen1_17_fantasy_0001-0240.mp4";
    }
    ∷ record {
      name = "Pink Lemonade";
      image = "https://looklabs.s3.amazonaws.com/buds/420_Pink_Lemonade.mp4";
      gen1_video =
          "https://looklabs.mypinata.cloud/ipfs/QmZ1ycjX1sc6KuZBMf5PQb798Pv1QCA7PP6qHSEr1gubTi/Gen1_18_fantasy_0001-0240.mp4";
    }
    ∷ record {
      name = "Purple Haze";
      image = "https://looklabs.s3.amazonaws.com/buds/420_PurpleHaze.mp4";
      gen1_video =
          "https://looklabs.mypinata.cloud/ipfs/QmZ1ycjX1sc6KuZBMf5PQb798Pv1QCA7PP6qHSEr1gubTi/Gen1_19_fantasy_0001-0240.mp4";
    }
    ∷ record {
      name = "White Runtz";
      image = "https://looklabs.s3.amazonaws.com/buds/420_White_Runtz.mp4";
      gen1_video =
          "https://looklabs.mypinata.cloud/ipfs/QmZ1ycjX1sc6KuZBMf5PQb798Pv1QCA7PP6qHSEr1gubTi/Gen1_20_fantasy_0001-0240.mp4";
    }
    ∷ []
