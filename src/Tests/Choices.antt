-- ===== src/Tests/Choices.antt =====
-- The choices that a feed of two builds offers while no release can be listed.
use ha_paneld_home_assistant.Prelude.{[], codes}
use ha_paneld_home_assistant.Release.Session.{Session}
use ha_paneld_home_assistant.Catalog.Offered.{IsOffered, async_list_install_choices-IsOffered}
use ha_paneld_home_assistant.Tests.Online.{url_at, line_of, signature}
use ha_paneld_home_assistant.Tests.Feeds.{feed_web, feed, feed_run, feed_first, build}

abbrev silent : Session
silent = record { replies = []; asked = [] }

async_list_install_choices-IsOffered_example : IsOffered feed_web (λ v. line_of 0) feed silent
async_list_install_choices-IsOffered_example =
    async_list_install_choices-IsOffered feed_web (λ v. line_of 0) (line_of 0) signature
      (url_at (codes "https://github.com/feed.json")) feed feed_run (build 42) feed_first silent
